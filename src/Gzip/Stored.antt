-- ===== src/Gzip/Stored.antt =====
-- Where the bytes of a field of the header and of the trailer are stored.
use teg.Prelude.{
  ℕ, zero, suc, ◌+◌, ◌<◌, ◌≡◌, ◌≢◌, refl, sym, ap, ◌∙◌, ◌⊎◌, inl, inr, Bool, false, some, ◌%◌, List,
  [], ◌∷◌, ◌++◌, arith, ◌==◌, Bool-cases, length, set, take, drop, All, append_assoc, lt→ltb,
  length-set, get_or,
}
use teg.Prelude.Words.{u32, IsU8}
use teg.Gzip.Feed.{feed-keeps}
use teg.Gzip.Invariant.{IsValid, Room-in}
use teg.Gzip.Bounds.{round-IsValid, round-bytes}
use teg.Gzip.Open.{after_comment-open, after_name-open, after_extra-open, after_fixed-open}
use teg.Gzip.{
  header_fixed, header_extra_len, header_extra_skip, header_name, header_comment, header_crc,
  deflate, trailer, done, failed, status_done, needs_more_input, has_more_output, status_failed,
  State, dict_size, GzipInflater, TinflStatus, Miniz, fail, fixed_byte, extra_len_byte,
  extra_skip_byte, name_byte, comment_byte, header_crc_byte, take_trailer, check_trailer, Inflater,
  judge_status, deflate_round, round, feed,
}

-- The first n bytes of an array are the last n that were consumed, in their order.
abbrev Ends : List ℕ → ℕ → List ℕ → Type 0
Ends array n seen = (older : List ℕ) × (seen ≡ older ++ take n array)

-- In a state that fills an array, its first places hold the field's bytes so far; at the end the
-- trailer holds eight bytes of the input, which others may follow.
abbrev pub Field : {T : Type 0} → State → GzipInflater T → List ℕ → Type 0
Field header_fixed g seen = Ends g.scratch g.field_bytes seen
Field header_extra_len g seen = Ends g.scratch g.field_bytes seen
Field trailer g seen = Ends g.trailer_bytes g.field_bytes seen
Field done g seen =
    (older : List ℕ) × (after : List ℕ) × (seen ≡ older ++ (g.trailer_bytes ++ after))
Field _ g seen = Unit

-- All that the inflater has consumed since the beginning, and where the last of it is stored.
abbrev pub IsStored : {T : Type 0} → GzipInflater T → List ℕ → Type 0
IsStored g seen = Field g.state g seen

take-set :
    (n : ℕ) (array : List ℕ) (b : ℕ)
    → n < length array
    → take (suc n) (set array n b) ≡ take n array ++ b ∷ []
take-set n [] b h = absurd (omega arith)
take-set zero (x ∷ xs) b h = refl
take-set (suc n) (x ∷ xs) b h = ap (λ t. x ∷ t) (take-set n xs b (omega arith))

append_nothing : (xs : List ℕ) → xs ++ [] ≡ xs
append_nothing [] = refl
append_nothing (x ∷ xs) = ap (λ t. x ∷ t) (append_nothing xs)

take_whole : (xs : List ℕ) (n : ℕ) → length xs ≡ n → take n xs ≡ xs
take_whole [] zero h = refl
take_whole [] (suc n) h = refl
take_whole (x ∷ xs) zero h = absurd (omega arith)
take_whole (x ∷ xs) (suc n) h = ap (λ t. x ∷ t) (take_whole xs n (omega arith))

take-drop_lem : (n : ℕ) (xs : List ℕ) → xs ≡ take n xs ++ drop n xs
take-drop_lem zero xs = refl
take-drop_lem (suc n) [] = refl
take-drop_lem (suc n) (x ∷ xs) = ap (λ t. x ∷ t) (take-drop_lem n xs)

Ends-set :
    (array : List ℕ) (n b : ℕ) (seen : List ℕ)
    → n < length array
    → Ends array n seen
    → Ends (set array n b) (n + 1) (seen ++ b ∷ [])
Ends-set array n b seen room (older, e) =
    let next : n + 1 ≡ suc n = omega arith in
    (
      older,
      ap (λ t. t ++ b ∷ []) e
          ∙ append_assoc older (take n array) (b ∷ [])
          ∙ ap (λ t. older ++ t)
              (sym (take-set n array b room) ∙ ap (λ k. take k (set array n b)) (sym next)),
    )

-- A field begins.
Field-fresh :
    {T : Type 0} (st : State) (g : GzipInflater T) (seen : List ℕ)
    → st ≢ done
    → g.field_bytes ≡ 0
    → Field st g seen
Field-fresh header_fixed g seen not_end e = (seen, rw e (sym (append_nothing seen)))
Field-fresh header_extra_len g seen not_end e = (seen, rw e (sym (append_nothing seen)))
Field-fresh trailer g seen not_end e = (seen, rw e (sym (append_nothing seen)))
Field-fresh done g seen not_end e = absurd (not_end refl)
Field-fresh header_extra_skip g seen not_end e = tt
Field-fresh header_name g seen not_end e = tt
Field-fresh header_comment g seen not_end e = tt
Field-fresh header_crc g seen not_end e = tt
Field-fresh deflate g seen not_end e = tt
Field-fresh failed g seen not_end e = tt

module _ {T : Type 0} (g' : GzipInflater T) (seen : List ℕ) where
  -- A state that fills nothing, or the beginning of a field.
  abbrev Starts : Type 0
  Starts =
      ((g'.state ≢ done) × (g'.field_bytes ≡ 0))
      ⊎ (g'.state ≡ failed)
      ⊎ (g'.state ≡ header_extra_skip)
      ⊎ (g'.state ≡ header_crc)

  Starts-IsStored : Starts → IsStored g' seen
  Starts-IsStored (inl (not_end, e)) = Field-fresh g'.state g' seen not_end e
  Starts-IsStored (inr (inl e)) = rw e tt
  Starts-IsStored (inr (inr (inl e))) = rw e tt
  Starts-IsStored (inr (inr (inr e))) = rw e tt

  fixed-IsStored : g'.state ≡ header_fixed → Ends g'.scratch g'.field_bytes seen → IsStored g' seen
  fixed-IsStored e h = rw e h

  extra-IsStored :
      g'.state ≡ header_extra_len → Ends g'.scratch g'.field_bytes seen → IsStored g' seen
  extra-IsStored e h = rw e h

  trailer-IsStored :
      g'.state ≡ trailer → Ends g'.trailer_bytes g'.field_bytes seen → IsStored g' seen
  trailer-IsStored e h = rw e h

  done-IsStored :
      g'.state ≡ done → (older : List ℕ) → seen ≡ older ++ g'.trailer_bytes → IsStored g' seen
  done-IsStored e older cut =
      rw e (older, [], cut ∙ ap (λ t. older ++ t) (sym (append_nothing g'.trailer_bytes)))

module _ {T : Type 0} (g : GzipInflater T) (b : ℕ) (seen : List ℕ) (v : IsValid g) where
  abbrev seen' : List ℕ
  seen' = seen ++ b ∷ []

  fixed_byte-cases :
      g.state ≡ header_fixed
      → g.field_bytes < 10
      → (((fixed_byte g b).1.state ≡ header_fixed)
          × ((fixed_byte g b).1.scratch ≡ set g.scratch g.field_bytes b)
          × ((fixed_byte g b).1.field_bytes ≡ g.field_bytes + 1))
        ⊎ Starts (fixed_byte g b).1 seen'
  unfolding fixed_byte fail
  fixed_byte-cases st room =
      ground (arith, after_fixed-open (get_or (set g.scratch g.field_bytes b) 3 0))

  fixed_byte-IsStored :
      g.state ≡ header_fixed
      → g.field_bytes < 10
      → Ends g.scratch g.field_bytes seen
      → IsStored (fixed_byte g b).1 seen'
  fixed_byte-IsStored st room h = elim (fixed_byte-cases st room) [
    | inl (e, es, en) ↦
        fixed-IsStored (fixed_byte g b).1 seen' e
          (rw (es, en) (Ends-set g.scratch g.field_bytes b seen (omega (arith, room, v.scratch)) h))
    | inr starts ↦ Starts-IsStored (fixed_byte g b).1 seen' starts
  ]

  extra_len_byte-cases :
      g.state ≡ header_extra_len
      → g.field_bytes < 2
      → (((extra_len_byte g b).1.state ≡ header_extra_len)
          × ((extra_len_byte g b).1.scratch ≡ set g.scratch g.field_bytes b)
          × ((extra_len_byte g b).1.field_bytes ≡ g.field_bytes + 1))
        ⊎ Starts (extra_len_byte g b).1 seen'
  unfolding extra_len_byte
  extra_len_byte-cases st room = ground (arith, after_extra-open g.header_flags)

  extra_len_byte-IsStored :
      g.state ≡ header_extra_len
      → g.field_bytes < 2
      → Ends g.scratch g.field_bytes seen
      → IsStored (extra_len_byte g b).1 seen'
  extra_len_byte-IsStored st room h = elim (extra_len_byte-cases st room) [
    | inl (e, es, en) ↦
        extra-IsStored (extra_len_byte g b).1 seen' e
          (rw (es, en) (Ends-set g.scratch g.field_bytes b seen (omega (arith, room, v.scratch)) h))
    | inr starts ↦ Starts-IsStored (extra_len_byte g b).1 seen' starts
  ]

  extra_skip_byte-IsStored : g.state ≡ header_extra_skip → IsStored (extra_skip_byte g).1 seen'
  unfolding extra_skip_byte
  extra_skip_byte-IsStored st =
      Starts-IsStored (extra_skip_byte g).1 seen' (ground (arith, after_extra-open g.header_flags))

  name_byte-IsStored : g.state ≡ header_name → g.field_bytes ≡ 0 → IsStored (name_byte g b).1 seen'
  unfolding name_byte
  name_byte-IsStored st none_yet =
      Starts-IsStored (name_byte g b).1 seen' (ground (arith, after_name-open g.header_flags))

  comment_byte-IsStored :
      g.state ≡ header_comment → g.field_bytes ≡ 0 → IsStored (comment_byte g b).1 seen'
  unfolding comment_byte
  comment_byte-IsStored st none_yet =
      Starts-IsStored (comment_byte g b).1 seen' (ground (arith, after_comment-open g.header_flags))

  header_crc_byte-IsStored : g.state ≡ header_crc → IsStored (header_crc_byte g).1 seen'
  unfolding header_crc_byte
  header_crc_byte-IsStored st = Starts-IsStored (header_crc_byte g).1 seen' (ground arith)

  trailer-cases :
      g.state ≡ trailer
      → g.field_bytes < 8
      → let g' = (check_trailer (take_trailer g b)).1 in
        (g'.trailer_bytes ≡ set g.trailer_bytes g.field_bytes b)
        × (g'.field_bytes ≡ g.field_bytes + 1)
        × ((g'.state ≡ trailer) ⊎ ((g'.state ≡ done) × (g'.field_bytes ≡ 8)) ⊎ (g'.state ≡ failed))
  unfolding check_trailer take_trailer fail
  trailer-cases st room = ground arith

  check_trailer-IsStored :
      g.state ≡ trailer
      → g.field_bytes < 8
      → Ends g.trailer_bytes g.field_bytes seen
      → IsStored (check_trailer (take_trailer g b)).1 seen'
  check_trailer-IsStored st room h =
      let g' = (check_trailer (take_trailer g b)).1 in
      let (es, en, how) = trailer-cases st room in
      let stored : Ends g'.trailer_bytes g'.field_bytes seen' =
        rw (es, en)
          (Ends-set g.trailer_bytes g.field_bytes b seen (omega (arith, room, v.trailer)) h) in
      elim how [
        | inl e ↦ trailer-IsStored g' seen' e stored
        | inr (inl (e, eight)) ↦
            let size : length g'.trailer_bytes ≡ g'.field_bytes =
              ap length es ∙ length-set g.trailer_bytes g.field_bytes b ∙ v.trailer ∙ sym eight in
            done-IsStored g' seen' e stored.0
              (stored.1 ∙ ap (λ t. stored.0 ++ t) (take_whole g'.trailer_bytes g'.field_bytes size))
        | inr (inr e) ↦ Starts-IsStored g' seen' (inr (inl e))
      ]

module _ (m : Miniz) {Ctx : Type 0} (emit : Ctx → List ℕ → Bool × Ctx) where
  -- A round consumes the beginning of its input, and stores what it has to.
  abbrev RoundStored : List ℕ → List ℕ → Inflater m emit → List ℕ → Type 0
  RoundStored seen input g rest =
      (eaten : List ℕ) × (input ≡ eaten ++ rest) × IsStored g (seen ++ eaten)

  judge-IsStored :
      (g : Inflater m emit) (status : TinflStatus) (seen : List ℕ)
      → g.state ≡ deflate
      → IsStored (judge_status m emit g status).1 seen
  unfolding judge_status fail
  judge-IsStored g status_done seen st = (seen, sym (append_nothing seen))
  judge-IsStored g needs_more_input seen st = rw st tt
  judge-IsStored g has_more_output seen st = rw st tt
  judge-IsStored g status_failed seen st = tt

  deflate-Stored :
      (g : Inflater m emit) (input : List ℕ) (c : Ctx) (seen : List ℕ)
      → g.state ≡ deflate
      → RoundStored seen input (deflate_round m emit g input c).1 (deflate_round m emit g input c).2
  unfolding deflate_round fail
  deflate-Stored g input c seen st =
      let r = m.tinfl_decompress g.inflater input g.dict g.dict_offset in
      let output = take r.out_bytes (drop g.dict_offset r.dict) in
      let eaten = take r.in_bytes input in
      let got : Inflater m emit = record g { inflater = r.inflater; dict = r.dict } in
      let moved : Inflater m emit = record got {
        crc = u32 (m.mz_crc32 g.crc output);
        out_total = u32 (g.out_total + r.out_bytes);
        dict_offset = (g.dict_offset + r.out_bytes) % dict_size;
      } in
      let cut = take-drop_lem r.in_bytes input in
      elim (Bool-cases (r.out_bytes == 0)) [
        | inl e ↦ rw e (eaten, cut, judge-IsStored got r.status (seen ++ eaten) st)
        | inr e ↦ elim (Bool-cases (emit c output).0) [
          | inl f ↦ rw (e, f) (eaten, cut, judge-IsStored moved r.status (seen ++ eaten) st)
          | inr f ↦ rw (e, f) (eaten, cut, tt)
        ]
      ]

  round-Stored :
      (st : State) (g : Inflater m emit) (b : ℕ) (rest : List ℕ) (c : Ctx) (seen : List ℕ)
      → st ≡ g.state
      → IsValid g
      → Field st g seen
      → RoundStored seen (b ∷ rest) (round m emit st g b rest c).1 (round m emit st g b rest c).2
  unfolding round
  round-Stored header_fixed g b rest c seen e v h =
      (b ∷ [], refl, fixed_byte-IsStored g b seen v (sym e) (Room-in header_fixed g e v) h)
  round-Stored header_extra_len g b rest c seen e v h =
      (b ∷ [], refl, extra_len_byte-IsStored g b seen v (sym e) (Room-in header_extra_len g e v) h)
  round-Stored header_extra_skip g b rest c seen e v h =
      (b ∷ [], refl, extra_skip_byte-IsStored g b seen v (sym e))
  round-Stored header_name g b rest c seen e v h =
      (b ∷ [], refl, name_byte-IsStored g b seen v (sym e) (Room-in header_name g e v))
  round-Stored header_comment g b rest c seen e v h =
      (b ∷ [], refl, comment_byte-IsStored g b seen v (sym e) (Room-in header_comment g e v))
  round-Stored header_crc g b rest c seen e v h =
      (b ∷ [], refl, header_crc_byte-IsStored g b seen v (sym e))
  round-Stored deflate g b rest c seen e v h = deflate-Stored g (b ∷ rest) c seen (sym e)
  round-Stored trailer g b rest c seen e v h =
      let room = Room-in trailer g e v in
      rw (lt→ltb g.field_bytes 8 room)
        (b ∷ [], refl, check_trailer-IsStored g b seen v (sym e) room h)
  round-Stored done g b rest c seen e v (older, after, cut) = (
    b ∷ rest,
    sym (append_nothing (b ∷ rest)),
    rw (← e) (
      older,
      after ++ b ∷ rest,
      ap (λ t. t ++ b ∷ rest) cut
          ∙ append_assoc older (g.trailer_bytes ++ after) (b ∷ rest)
          ∙ ap (λ t. older ++ t) (append_assoc g.trailer_bytes after (b ∷ rest)),
    ),
  )
  round-Stored failed g b rest c seen e v h = ([], refl, rw (← e) tt)

  -- What has been consumed of an input, behind what was before.
  abbrev Along : List ℕ → List ℕ → Inflater m emit → List ℕ → Type 0
  Along before whole g input =
      IsValid g
      × All IsU8 input
      × ((eaten : List ℕ) × (whole ≡ eaten ++ input) × IsStored g (before ++ eaten))

  Along-round :
      (before whole : List ℕ) (g : Inflater m emit) (b : ℕ) (rest : List ℕ) (c : Ctx)
      → Along before whole g (b ∷ rest)
      → Along before whole (round m emit g.state g b rest c).1 (round m emit g.state g b rest c).2
  Along-round before whole g b rest c (v, bytes, (eaten, cut, h)) =
      let r = round m emit g.state g b rest c in
      let (more, split, stored) = round-Stored g.state g b rest c (before ++ eaten) refl v h in
      (
        round-IsValid m emit g.state g b rest c refl bytes.0 v,
        round-bytes m emit g.state g b rest c bytes,
        (
          eaten ++ more,
          cut ∙ ap (λ t. eaten ++ t) split ∙ sym (append_assoc eaten more r.2),
          rw (← append_assoc before eaten more) stored,
        ),
      )

  -- However the input is cut and whatever it holds, a feed of bytes stores each byte of a field at
  -- its place within its array: from an inflater whose counters are within the arrays (10 bytes of
  -- the header, 8 of the trailer, 32768 of the dictionary) and whose current field stands in the
  -- first places of its array in the order of the input, it leads to such an inflater, the beginning
  -- of the input being consumed, and all of it where the feed succeeds.
  pub feed-IsStored :
      (fuel : ℕ) (g : Inflater m emit) (input : List ℕ) (c : Ctx) (seen : List ℕ)
      → IsValid g
      → IsStored g seen
      → All IsU8 input
      → (more : Bool) (g' : Inflater m emit) (c' : Ctx)
      → feed m emit fuel g input c ≡ some (more, g', c')
      → IsValid g'
        × ((eaten : List ℕ) × (rest : List ℕ) × (input ≡ eaten ++ rest)
            × IsStored g' (seen ++ eaten)
            × ((more ≡ false) ⊎ (rest ≡ [])))
  feed-IsStored fuel g input c seen v h bytes more g' c' e =
      let start : Along seen input g input = (v, bytes, ([], refl, rw (append_nothing seen) h)) in
      let (rest, (v', left, (eaten, cut, stored)), how) =
        feed-keeps m emit (λ g input' c. Along seen input g input') (Along-round seen input) fuel g
          input c start more g' c' e in
      (v', (eaten, rest, cut, stored, how))
