-- ===== src/Gzip/Checksum.antt =====
-- The checksum of what the consumer was given.
use teg.Prelude.{
  ℕ, ◌*◌, false, All, All-append, append-nil, length, ◌+◌, ◌%◌, ◌≡◌, refl, sym, ap, ◌∙◌, ◌≢◌, inl,
  inr, Bool, true, some, List, [], ◌∷◌, ◌++◌, arith, ◌==◌, Bool-cases, get_or, set, take, drop,
}
use teg.Prelude.Words.{u32, IsU8}
use teg.Prelude.Bits.{word_le}
use teg.Gzip.Invariant.{IsValid}
use teg.Gzip.Stored.{Field, IsStored, feed-IsStored}
use teg.Gzip.Feed.{feed-keeps}
use teg.Gzip.Open.{after_comment-open, after_name-open, after_extra-open, after_fixed-open}
use teg.Gzip.{
  header_fixed, header_extra_len, header_extra_skip, header_name, header_comment, header_crc,
  deflate, trailer, done, failed, status_done, needs_more_input, has_more_output, status_failed,
  State, dict_size, TinflStatus, Miniz, GzipInflater, expect_crc, fail, fixed_byte, extra_len_byte,
  extra_skip_byte, name_byte, comment_byte, header_crc_byte, take_trailer, check_trailer, finish,
  finish_in, Inflater, begin, judge_status, deflate_round, round, feed,
}

module _ {T : Type 0} (g : GzipInflater T) (b : ℕ) where
  abbrev Quiet : GzipInflater T → Type 0
  Quiet g' = (g'.crc ≡ g.crc) × (g'.state ≢ done)

  fixed_byte-Quiet : g.state ≡ header_fixed → Quiet (fixed_byte g b).1
  unfolding fixed_byte fail
  fixed_byte-Quiet st =
      (ground arith, ground (arith, after_fixed-open (get_or (set g.scratch g.field_bytes b) 3 0)))

  extra_len_byte-Quiet : g.state ≡ header_extra_len → Quiet (extra_len_byte g b).1
  unfolding extra_len_byte
  extra_len_byte-Quiet st = (ground arith, ground (arith, after_extra-open g.header_flags))

  extra_skip_byte-Quiet : g.state ≡ header_extra_skip → Quiet (extra_skip_byte g).1
  unfolding extra_skip_byte
  extra_skip_byte-Quiet st = (ground arith, ground (arith, after_extra-open g.header_flags))

  name_byte-Quiet : g.state ≡ header_name → Quiet (name_byte g b).1
  unfolding name_byte
  name_byte-Quiet st = (ground arith, ground (arith, after_name-open g.header_flags))

  comment_byte-Quiet : g.state ≡ header_comment → Quiet (comment_byte g b).1
  unfolding comment_byte
  comment_byte-Quiet st = (ground arith, ground (arith, after_comment-open g.header_flags))

  header_crc_byte-Quiet : g.state ≡ header_crc → Quiet (header_crc_byte g).1
  unfolding header_crc_byte
  header_crc_byte-Quiet st = (ground arith, ground arith)

  -- The trailer is accepted only where it names the checksum.
  trailer-crc : (check_trailer (take_trailer g b)).1.crc ≡ g.crc
  unfolding check_trailer take_trailer fail
  trailer-crc = ground arith

  trailer-done :
      g.state ≡ trailer
      → (check_trailer (take_trailer g b)).1.state ≡ done
      → expect_crc (check_trailer (take_trailer g b)).1.trailer_bytes ≡ g.crc
  unfolding check_trailer take_trailer fail
  trailer-done st closed = ground arith

-- Somewhere in the input, a trailer whose first four bytes are the number.
pub record Names (seen : List ℕ) (sum : ℕ) : Type 0 where
  pub t0 : ℕ
  pub t1 : ℕ
  pub t2 : ℕ
  pub t3 : ℕ
  pub before : List ℕ
  pub size : List ℕ
  pub after : List ℕ
  pub cut : seen ≡ before ++ (t0 ∷ t1 ∷ t2 ∷ t3 ∷ (size ++ after))
  pub size_is : length size ≡ 4
  pub names : t0 + t1 * 256 + t2 * 65536 + t3 * 16777216 ≡ sum

All-append_right : (P : ℕ → Type 0) (xs ys : List ℕ) → All P (xs ++ ys) → All P ys
All-append_right P [] ys h = h
All-append_right P (x ∷ xs) ys h = All-append_right P xs ys h.1

module _ (m : Miniz) {Ctx : Type 0} (emit : Ctx → List ℕ → Bool × Ctx) (sent : Ctx → List ℕ)
    (records : (c : Ctx) (output : List ℕ) → sent (emit c output).1 ≡ sent c ++ output) where
  -- The running checksum is that of what was sent, and an inflater that is done has read it.
  pub record Matches (g : Inflater m emit) (c : Ctx) : Type 0 where
    pub running : g.crc ≡ m.mz_crc32 0 (sent c)
    pub closing : g.state ≡ done → expect_crc g.trailer_bytes ≡ g.crc

  quiet-Matches :
      (g g' : Inflater m emit) (c : Ctx)
      → Matches g c
      → (g'.crc ≡ g.crc) × (g'.state ≢ done)
      → Matches g' c
  quiet-Matches g g' c h q = record { running = q.0 ∙ h.running; closing = λ e. absurd (q.1 e) }

  judge-Matches :
      (g : Inflater m emit) (status : TinflStatus) (c : Ctx)
      → g.state ≡ deflate
      → g.crc ≡ m.mz_crc32 0 (sent c)
      → Matches (judge_status m emit g status).1 c
  unfolding judge_status fail
  judge-Matches g status_done c st h = record { running = h; closing = λ e. cc }
  judge-Matches g needs_more_input c st h = record { running = h; closing = λ e. cc }
  judge-Matches g has_more_output c st h = record { running = h; closing = λ e. cc }
  judge-Matches g status_failed c st h = record { running = h; closing = λ e. cc }

  deflate-Matches :
      (g : Inflater m emit) (input : List ℕ) (c : Ctx)
      → g.state ≡ deflate
      → Matches g c
      → Matches (deflate_round m emit g input c).1 (deflate_round m emit g input c).3
  unfolding deflate_round fail
  deflate-Matches g input c st h =
      let r = m.tinfl_decompress g.inflater input g.dict g.dict_offset in
      let output = take r.out_bytes (drop g.dict_offset r.dict) in
      let got : Inflater m emit = record g { inflater = r.inflater; dict = r.dict } in
      let counted : Inflater m emit = record got {
        crc = u32 (m.mz_crc32 g.crc output);
        out_total = u32 (g.out_total + r.out_bytes);
      } in
      let moved : Inflater m emit = record counted {
        dict_offset = (g.dict_offset + r.out_bytes) % dict_size;
      } in
      let sum : u32 (m.mz_crc32 g.crc output) ≡ m.mz_crc32 0 (sent (emit c output).1) =
        ap u32 (
          ap (λ (x : ℕ). m.mz_crc32 x output) h.running
          ∙ sym (m.crc-append 0 (sent c) output)
          ∙ ap (m.mz_crc32 0) (sym (records c output)))
        ∙ omega (arith, m.crc-bounds 0 (sent (emit c output).1) (omega arith)) in
      elim (Bool-cases (r.out_bytes == 0)) [
        | inl e ↦ rw e (judge-Matches got r.status c st h.running)
        | inr e ↦ elim (Bool-cases (emit c output).0) [
          | inl f ↦ rw (e, f) (judge-Matches moved r.status (emit c output).1 st sum)
          | inr f ↦ rw (e, f) (record { running = sum; closing = λ x. cc })
        ]
      ]

  round-Matches :
      (st : State) (g : Inflater m emit) (b : ℕ) (rest : List ℕ) (c : Ctx)
      → st ≡ g.state
      → Matches g c
      → Matches (round m emit st g b rest c).1 (round m emit st g b rest c).3
  unfolding round
  round-Matches header_fixed g b rest c e h =
      quiet-Matches g (fixed_byte g b).1 c h (fixed_byte-Quiet g b (sym e))
  round-Matches header_extra_len g b rest c e h =
      quiet-Matches g (extra_len_byte g b).1 c h (extra_len_byte-Quiet g b (sym e))
  round-Matches header_extra_skip g b rest c e h =
      quiet-Matches g (extra_skip_byte g).1 c h (extra_skip_byte-Quiet g b (sym e))
  round-Matches header_name g b rest c e h =
      quiet-Matches g (name_byte g b).1 c h (name_byte-Quiet g b (sym e))
  round-Matches header_comment g b rest c e h =
      quiet-Matches g (comment_byte g b).1 c h (comment_byte-Quiet g b (sym e))
  round-Matches header_crc g b rest c e h =
      quiet-Matches g (header_crc_byte g).1 c h (header_crc_byte-Quiet g b (sym e))
  round-Matches deflate g b rest c e h = deflate-Matches g (b ∷ rest) c (sym e) h
  round-Matches trailer g b rest c e h = record {
    running = trailer-crc g b ∙ h.running;
    closing = λ closed. trailer-done g b (sym e) closed ∙ sym (trailer-crc g b);
  }
  round-Matches done g b rest c e h = h
  round-Matches failed g b rest c e h = h

  -- The inflaters that a sequence of successful feeds of bytes leads to, with the consumer and the
  -- whole input.
  pub data Fed : Inflater m emit → Ctx → List ℕ → Type 0 where
    begun :
        (g : Inflater m emit) (c : Ctx)
        → IsValid (begin m emit g)
        → sent c ≡ []
        → Fed (begin m emit g) c []
    fed :
        (g g' : Inflater m emit) (c c' : Ctx) (fuel : ℕ) (seen input : List ℕ)
        → Fed g c seen
        → All IsU8 input
        → feed m emit fuel g input c ≡ some (true, g', c')
        → Fed g' c' (seen ++ input)

  Fed-Matches : {g : Inflater m emit} {c : Ctx} {seen : List ℕ} → Fed g c seen → Matches g c
  unfolding begin
  Fed-Matches (begun g c v e) = record {
    running = sym (m.crc-nothing 0) ∙ ap (m.mz_crc32 0) (sym e);
    closing = λ x. absurd (let no_end : header_fixed ≡ done = x in cc);
  }
  Fed-Matches (fed g g' c c' fuel seen input run bytes e) =
      (feed-keeps m emit (λ g input c. Matches g c)
        (λ g b rest c k. round-Matches g.state g b rest c refl k) fuel g input c (Fed-Matches run)
        true g' c' e).1

  -- The bytes of the input, and where the last of them stand.
  Fed-IsStored :
      {g : Inflater m emit} {c : Ctx} {seen : List ℕ}
      → Fed g c seen
      → IsValid g × IsStored g seen × All IsU8 seen
  unfolding begin
  Fed-IsStored (begun g c v e) = (v, ([], refl), tt)
  Fed-IsStored (fed g g' c c' fuel seen input run bytes e) =
      let (v, h, u) = Fed-IsStored run in
      let (v', (eaten, rest, cut, stored, how)) =
        feed-IsStored m emit fuel g input c seen v h bytes true g' c' e in
      let whole : eaten ≡ input = elim how [
        | inl no_go ↦ absurd (let no_go' : true ≡ false = no_go in cc)
        | inr nothing ↦ sym (cut ∙ ap (λ t. eaten ++ t) nothing ∙ append-nil eaten)
      ] in
      (v', rw (← whole) stored, All-append IsU8 seen input u bytes)

  finish-done : (st : State) (g : Inflater m emit) → (finish_in st g).0 ≡ true → st ≡ done
  unfolding finish_in fail
  finish-done header_fixed g h = cc
  finish-done header_extra_len g h = cc
  finish-done header_extra_skip g h = cc
  finish-done header_name g h = cc
  finish-done header_comment g h = cc
  finish-done header_crc g h = cc
  finish-done deflate g h = cc
  finish-done trailer g h = cc
  finish-done done g h = refl
  finish-done failed g h = cc

  closed :
      (g : Inflater m emit) (seen : List ℕ) (sum : ℕ) (trailer_bytes : List ℕ)
      → trailer_bytes ≡ g.trailer_bytes
      → length trailer_bytes ≡ 8
      → All IsU8 seen
      → Field done g seen
      → expect_crc g.trailer_bytes ≡ sum
      → Names seen sum
  unfolding expect_crc
  closed g seen sum (t0 ∷ t1 ∷ t2 ∷ t3 ∷ size) e len bytes (before, after, cut) names =
      let split : seen ≡ before ++ (t0 ∷ t1 ∷ t2 ∷ t3 ∷ (size ++ after)) =
        cut ∙ ap (λ t. before ++ (t ++ after)) (sym e) in
      let (h0, (h1, (h2, (h3, h4)))) =
        All-append_right IsU8 before (t0 ∷ t1 ∷ t2 ∷ t3 ∷ (size ++ after)) (rw split at bytes) in
      record {
        t0 = t0;
        t1 = t1;
        t2 = t2;
        t3 = t3;
        before = before;
        size = size;
        after = after;
        cut = split;
        size_is = omega (arith, len);
        names = sym (word_le t0 t1 t2 t3 h0 h1 h2 h3) ∙ ap (λ t. expect_crc t) e ∙ names;
      }
  closed g seen sum [] e len bytes h names = absurd (omega (arith, len))
  closed g seen sum (t0 ∷ []) e len bytes h names = absurd (omega (arith, len))
  closed g seen sum (t0 ∷ t1 ∷ []) e len bytes h names = absurd (omega (arith, len))
  closed g seen sum (t0 ∷ t1 ∷ t2 ∷ []) e len bytes h names = absurd (omega (arith, len))

  -- An upload of bytes that ends cleanly carries the checksum of what it delivered: behind some part of the whole input stand eight
  -- bytes, a trailer, of which the first four, the least significant first, are the checksum of
  -- everything that the consumer was given, however the upload was cut into pieces.
  pub finish-Matches :
      (g : Inflater m emit) (c : Ctx) (seen : List ℕ)
      → Fed g c seen
      → (finish g).0 ≡ true
      → Names seen (m.mz_crc32 0 (sent c))
  unfolding finish
  finish-Matches g c seen run h =
      let k = Fed-Matches run in
      let (v, stored, bytes) = Fed-IsStored run in
      let ended = finish-done g.state g h in
      closed g seen (m.mz_crc32 0 (sent c)) g.trailer_bytes refl v.trailer bytes
        (rw ended at stored) (k.closing ended ∙ k.running)
