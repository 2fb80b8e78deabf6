-- ===== src/Tests/Gunzip.antt =====
-- The streaming gunzip at a concrete stream: a decompressor that yields its first byte and is done.
use teg.Prelude.{
  ℕ, zero, suc, false, ◌+◌, ◌-◌, ◌%◌, ◌^◌, ◌≤◌, ◌<◌, ◌≡◌, refl, ◌⊎◌, Bool, true, Option, none, some,
  List, [], ◌∷◌, ◌++◌, arith, length, set, replicate, All,
}
use teg.Prelude.Words.{IsU8}
use teg.Gzip.{
  has_more_output, header_fixed, status_done, needs_more_input, done, dict_size, Inflated, Miniz,
  GzipInflater, after_comment, after_name, after_extra, after_fixed, expect_crc, fail, fixed_byte,
  extra_len_byte, extra_skip_byte, name_byte, comment_byte, header_crc_byte, take_trailer,
  check_trailer, finish_in, finish, begin, judge_status, deflate_round, round, feed,
}
use teg.Gzip.Invariant.{IsValid}
use teg.Gzip.Stored.{IsStored, feed-IsStored}
use teg.Gzip.Checksum.{begun, fed, Names, finish-Matches}

-- The sum of the bytes in place of the checksum.
abbrev sum_from : ℕ → List ℕ → ℕ
sum_from c [] = c
sum_from c (x ∷ xs) = sum_from ((c + x) % 2 ^ 32) xs

sum_from-append : (c : ℕ) (xs ys : List ℕ) → sum_from c (xs ++ ys) ≡ sum_from (sum_from c xs) ys
sum_from-append c [] ys = refl
sum_from-append c (x ∷ xs) ys = sum_from-append ((c + x) % 2 ^ 32) xs ys

sum_from-lt : (c : ℕ) (xs : List ℕ) → c < 2 ^ 32 → sum_from c xs < 2 ^ 32
sum_from-lt c [] h = h
sum_from-lt c (x ∷ xs) h = sum_from-lt ((c + x) % 2 ^ 32) xs (omega arith)

abbrev one_byte : Bool → List ℕ → List ℕ → ℕ → Inflated Bool
one_byte t [] dict offset = record {
  status = needs_more_input;
  inflater = t;
  in_bytes = 0;
  out_bytes = 0;
  dict = dict;
}
one_byte t (b ∷ rest) dict offset = record {
  status = status_done;
  inflater = t;
  in_bytes = 1;
  out_bytes = 1;
  dict = set dict offset b;
}

abbrev Bounded : (input : List ℕ) (r : Inflated Bool) → Type 0
Bounded input r = r.in_bytes ≤ length input

one_byte-in :
    (t : Bool) (input dict : List ℕ) (offset : ℕ) → Bounded input (one_byte t input dict offset)
one_byte-in t [] dict offset = omega arith
one_byte-in t (b ∷ rest) dict offset = omega arith

one_byte-out :
    (t : Bool) (input dict : List ℕ) (offset : ℕ)
    → offset < dict_size
    → (one_byte t input dict offset).out_bytes ≤ dict_size - offset
one_byte-out t [] dict offset h = omega arith
one_byte-out t (b ∷ rest) dict offset h = omega arith

one_byte-input :
    (t : Bool) (input dict : List ℕ) (offset : ℕ)
    → (one_byte t input dict offset).status ≡ needs_more_input
    → (one_byte t input dict offset).in_bytes ≡ length input
one_byte-input t [] dict offset h = refl
one_byte-input t (b ∷ rest) dict offset h =
    absurd (let no_go : status_done ≡ needs_more_input = h in cc)

one_byte-space :
    (t : Bool) (input dict : List ℕ) (offset : ℕ)
    → (one_byte t input dict offset).status ≡ has_more_output
    → (one_byte t input dict offset).out_bytes ≡ dict_size - offset
one_byte-space t [] dict offset h =
    absurd (let no_go : needs_more_input ≡ has_more_output = h in cc)
one_byte-space t (b ∷ rest) dict offset h =
    absurd (let no_go : status_done ≡ has_more_output = h in cc)

abbrev small_miniz : Miniz
small_miniz = record {
  Tinfl = Bool;
  tinfl_init = true;
  tinfl_decompress = one_byte;
  mz_crc32 = sum_from;
  in_bounds = one_byte-in;
  out_bounds = one_byte-out;
  wants_input = one_byte-input;
  wants_space = one_byte-space;
  crc-nothing = λ c. refl;
  crc-append = sum_from-append;
  crc-bounds = sum_from-lt;
}

-- The consumer keeps what it is given.
abbrev keep : List ℕ → List ℕ → Bool × List ℕ
keep c output = (true, c ++ output)

abbrev blank : GzipInflater Bool
blank = record {
  state = header_fixed;
  error_msg = none;
  header_flags = 0;
  field_bytes = 0;
  field_len = 0;
  scratch = replicate 10 0;
  inflater = true;
  dict_offset = 0;
  dict = 0 ∷ 0 ∷ [];
  crc = 0;
  out_total = 0;
  trailer_bytes = replicate 8 0;
}

blank-IsValid : IsValid blank
blank-IsValid = record {
  room = omega arith;
  scratch = refl;
  bytes = (
    omega arith,
    (
      omega arith,
      (
        omega arith,
        (
          omega arith,
          (
            omega arith,
            (omega arith, (omega arith, (omega arith, (omega arith, (omega arith, tt))))),
          ),
        ),
      ),
    ),
  );
  trailer = refl;
  offset = omega arith;
}

abbrev stream : List ℕ
stream = 0x1F ∷ 0x8B ∷ 8 ∷ 0 ∷ 0 ∷ 0 ∷ 0 ∷ 0 ∷ 0 ∷ 0 ∷ 65 ∷ 65 ∷ 0 ∷ 0 ∷ 0 ∷ 1 ∷ 0 ∷ 0 ∷ 0 ∷ []

stream-bytes : All IsU8 stream
stream-bytes =
    ((
      omega arith,
      (
        omega arith,
        (
          omega arith,
          (
            omega arith,
            (
              omega arith,
              (
                omega arith,
                (
                  omega arith,
                  (
                    omega arith,
                    (
                      omega arith,
                      (
                        omega arith,
                        (
                          omega arith,
                          (
                            omega arith,
                            (
                              omega arith,
                              (
                                omega arith,
                                (
                                  omega arith,
                                  (omega arith, (omega arith, (omega arith, (omega arith, tt)))),
                                ),
                              ),
                            ),
                          ),
                        ),
                      ),
                    ),
                  ),
                ),
              ),
            ),
          ),
        ),
      ),
    ))

abbrev finished : GzipInflater Bool
finished = record blank {
  state = done;
  scratch = 0x1F ∷ 0x8B ∷ 8 ∷ 0 ∷ 0 ∷ 0 ∷ 0 ∷ 0 ∷ 0 ∷ 0 ∷ [];
  dict = 65 ∷ 0 ∷ [];
  dict_offset = 1;
  crc = 65;
  out_total = 1;
  field_bytes = 8;
  trailer_bytes = 65 ∷ 0 ∷ 0 ∷ 0 ∷ 1 ∷ 0 ∷ 0 ∷ 0 ∷ [];
}

-- The consumer accepts as many pieces as its count says.
abbrev count_down : ℕ → List ℕ → Bool × ℕ
count_down zero output = (false, 0)
count_down (suc n) output = (true, n)

blank_again : IsValid (begin small_miniz keep blank)
unfolding begin
blank_again = blank-IsValid

finished-done : (finish finished).0 ≡ true
unfolding finish finish_in
finished-done = refl

stream-finished :
    ◌≡◌ {A = Option (Bool × GzipInflater Bool × List ℕ)}
      (feed small_miniz keep 30 (begin small_miniz keep blank) stream [])
      (some (true, finished, 65 ∷ []))
unfolding feed round begin fixed_byte extra_len_byte extra_skip_byte name_byte comment_byte
    header_crc_byte deflate_round judge_status take_trailer check_trailer expect_crc after_fixed
    after_extra after_name after_comment fail
stream-finished = refl

begin-IsStored : IsStored (begin small_miniz keep blank) []
unfolding begin
begin-IsStored = ([], refl)

feed-IsStored_example :
    IsValid finished
    × ((eaten : List ℕ) × (rest : List ℕ) × (stream ≡ eaten ++ rest)
        × IsStored finished ([] ++ eaten)
        × ((true ≡ false) ⊎ (rest ≡ [])))
feed-IsStored_example =
    feed-IsStored small_miniz keep 30 (begin small_miniz keep blank) stream [] [] blank_again
      begin-IsStored stream-bytes true finished (65 ∷ []) stream-finished

finish-Matches_example : Names ([] ++ stream) (sum_from 0 (65 ∷ []))
finish-Matches_example =
    finish-Matches small_miniz keep (λ c. c) (λ c output. refl) finished (65 ∷ []) ([] ++ stream)
      (fed (begin small_miniz keep blank) finished [] (65 ∷ []) 30 [] stream
        (begun blank [] blank_again refl) stream-bytes stream-finished)
      finished-done
