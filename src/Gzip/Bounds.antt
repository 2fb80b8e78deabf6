-- ===== src/Gzip/Bounds.antt =====
-- The well-formedness that every round and every feed keeps.
use teg.Prelude.{
  ℕ, ◌+◌, ◌%◌, ◌≡◌, sym, inl, inr, Bool, List, ◌∷◌, arith, ltb, ◌==◌, Bool-cases, take, drop, All,
  All-drop,
}
use teg.Prelude.Words.{u32, IsU8}
use teg.Gzip.{
  header_fixed, header_extra_len, header_extra_skip, header_name, header_comment, header_crc,
  deflate, trailer, done, failed, status_done, needs_more_input, has_more_output, status_failed,
  aborted, corrupt, State, dict_size, TinflStatus, Miniz, Inflater, judge_status, deflate_round,
  round,
}
use teg.Gzip.Invariant.{
  IsValid, Room-in, fail-IsValid, in_state, fixed_byte-IsValid, extra_len_byte-IsValid,
  extra_skip_byte-IsValid, name_byte-IsValid, comment_byte-IsValid, header_crc_byte-IsValid,
  trailer-IsValid,
}

module _ (m : Miniz) {Ctx : Type 0} (emit : Ctx → List ℕ → Bool × Ctx) where
  judge-IsValid :
      (g : Inflater m emit) (status : TinflStatus)
      → IsValid g
      → IsValid (judge_status m emit g status).1
  unfolding judge_status
  judge-IsValid g status_done h = in_state g h trailer 0 g.field_len (omega arith)
  judge-IsValid g needs_more_input h = h
  judge-IsValid g has_more_output h = h
  judge-IsValid g status_failed h = fail-IsValid g h corrupt

  deflate-IsValid :
      (g : Inflater m emit) (input : List ℕ) (c : Ctx)
      → IsValid g
      → IsValid (deflate_round m emit g input c).1
  unfolding deflate_round
  deflate-IsValid g input c h =
      let r = m.tinfl_decompress g.inflater input g.dict g.dict_offset in
      let output = take r.out_bytes (drop g.dict_offset r.dict) in
      let got : Inflater m emit = record g { inflater = r.inflater; dict = r.dict } in
      let counted : Inflater m emit = record got {
        crc = u32 (m.mz_crc32 g.crc output);
        out_total = u32 (g.out_total + r.out_bytes);
      } in
      let moved : Inflater m emit = record counted {
        dict_offset = (g.dict_offset + r.out_bytes) % dict_size;
      } in
      let got_valid : IsValid got = record {
        room = h.room;
        scratch = h.scratch;
        bytes = h.bytes;
        trailer = h.trailer;
        offset = h.offset;
      } in
      let counted_valid : IsValid counted = record {
        room = h.room;
        scratch = h.scratch;
        bytes = h.bytes;
        trailer = h.trailer;
        offset = h.offset;
      } in
      let moved_valid : IsValid moved = record {
        room = h.room;
        scratch = h.scratch;
        bytes = h.bytes;
        trailer = h.trailer;
        offset = omega arith;
      } in
      elim (Bool-cases (r.out_bytes == 0)) [
        | inl e ↦ rw e (judge-IsValid got r.status got_valid)
        | inr e ↦ elim (Bool-cases (emit c output).0) [
          | inl f ↦ rw (e, f) (judge-IsValid moved r.status moved_valid)
          | inr f ↦ rw (e, f) (fail-IsValid counted counted_valid aborted)
        ]
      ]

  pub round-IsValid :
      (st : State) (g : Inflater m emit) (b : ℕ) (rest : List ℕ) (c : Ctx)
      → st ≡ g.state
      → IsU8 b
      → IsValid g
      → IsValid (round m emit st g b rest c).1
  unfolding round
  round-IsValid header_fixed g b rest c e hb h =
      fixed_byte-IsValid g b h hb (sym e) (Room-in header_fixed g e h)
  round-IsValid header_extra_len g b rest c e hb h =
      extra_len_byte-IsValid g b h hb (sym e) (Room-in header_extra_len g e h)
  round-IsValid header_extra_skip g b rest c e hb h =
      extra_skip_byte-IsValid g b h hb (sym e) (Room-in header_extra_skip g e h)
  round-IsValid header_name g b rest c e hb h =
      name_byte-IsValid g b h hb (Room-in header_name g e h)
  round-IsValid header_comment g b rest c e hb h =
      comment_byte-IsValid g b h hb (Room-in header_comment g e h)
  round-IsValid header_crc g b rest c e hb h =
      header_crc_byte-IsValid g b h hb (sym e) (Room-in header_crc g e h)
  round-IsValid deflate g b rest c e hb h = deflate-IsValid g (b ∷ rest) c h
  round-IsValid trailer g b rest c e hb h = trailer-IsValid g b h hb (sym e) (Room-in trailer g e h)
  round-IsValid done g b rest c e hb h = h
  round-IsValid failed g b rest c e hb h = h

  -- What a round leaves of the input are bytes too.
  pub round-bytes :
      (st : State) (g : Inflater m emit) (b : ℕ) (rest : List ℕ) (c : Ctx)
      → All IsU8 (b ∷ rest)
      → All IsU8 (round m emit st g b rest c).2
  unfolding round deflate_round
  round-bytes header_fixed g b rest c h = h.1
  round-bytes header_extra_len g b rest c h = h.1
  round-bytes header_extra_skip g b rest c h = h.1
  round-bytes header_name g b rest c h = h.1
  round-bytes header_comment g b rest c h = h.1
  round-bytes header_crc g b rest c h = h.1
  round-bytes deflate g b rest c h =
      let r = m.tinfl_decompress g.inflater (b ∷ rest) g.dict g.dict_offset in
      let left = All-drop IsU8 r.in_bytes (b ∷ rest) h in
      elim (Bool-cases (r.out_bytes == 0)) [
        | inl e ↦ rw e left
        | inr e ↦ elim (Bool-cases (emit c (take r.out_bytes (drop g.dict_offset r.dict))).0) [
          | inl f ↦ rw (e, f) left
          | inr f ↦ rw (e, f) left
        ]
      ]
  round-bytes trailer g b rest c h = elim (Bool-cases (ltb g.field_bytes 8)) [
    | inl e ↦ rw e h.1
    | inr e ↦ rw e h
  ]
  round-bytes done g b rest c h = tt
  round-bytes failed g b rest c h = h
