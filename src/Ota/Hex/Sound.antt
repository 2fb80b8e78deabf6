-- ===== src/Ota/Hex/Sound.antt =====
-- src/hex_parse.h: what a line is that the parser accepts.
use teg.Prelude.{
  append-nil, ℕ, suc, ◌++◌, ◌≢◌, >>=-eq-some, ◌+◌, ◌*◌, ◌/◌, ◌%◌, ◌^◌, ◌<◌, ◌≡◌, refl, ap, ◌∙◌, ◌⊎◌,
  inl, inr, true, false, Bool-cases, Option-cases, some, ◌==◌, List, [], ◌∷◌, length, get_or, take,
  drop, All, All-drop, All-get_or, bit_or, arith,
}
use teg.Prelude.Words.{u32, IsU8, IsU32}
use teg.Prelude.Bits.{bit_or-shift, word_be}
use teg.Ota.Hex.{
  HexParser, HexResult, ok, err_format, data_record, eof, skip_space, read_pairs, hex_byte_at,
  interpret, check_record, parse_body, parse_record, hex_parse_line,
}
use teg.Ota.Hex.Text.{
  IsBlank, Spells, IsText, skip_space-cut, skip_space-IsBlank, read_pairs-Spells,
}
use teg.Ota.Hex.Spec.{total}
use teg.Ota.Hex.Digits.{sum_from, sum_from-mod, hex_byte_at-IsU8, read_pairs-bytes}

-- A whole record: its bytes, LL to CC, and the length that LL gives.
pub record IsRecord (len : ℕ) (bytes : List ℕ) : Type 0 where
  pub small : len < 256
  pub bytes_IsU8 : All IsU8 bytes
  pub size : length bytes ≡ 5 + len
  pub closes : total bytes % 256 ≡ 0

-- An error.
abbrev pub IsRefused : HexResult → Type 0
IsRefused ok = ⊥
IsRefused (data_record a bs) = ⊥
IsRefused eof = ⊥
IsRefused _ = Unit {0}

-- What a record of a type means, its payload being the bytes behind the first four.
abbrev pub Answers : HexParser → ℕ → List ℕ → List ℕ → HexResult × HexParser → Type 0
Answers p len bytes payload x =
    ((get_or bytes 3 0 ≡ 0)
      × (x ≡ (
        data_record (bit_or p.ext_addr (get_or bytes 1 0 * 256 + get_or bytes 2 0))
            (take len payload),
        p,
      )))
    ⊎ ((get_or bytes 3 0 ≡ 1) × (len ≡ 0) × (x ≡ (eof, record p { eof_seen = true })))
    ⊎ ((get_or bytes 3 0 ≡ 4)
        × (len ≡ 2)
        × (x ≡ (
          ok,
          record p { ext_addr = get_or payload 0 0 * 2 ^ 24 + get_or payload 1 0 * 2 ^ 16 },
        )))
    ⊎ ((get_or bytes 3 0 ≡ 5)
        × (len ≡ 4)
        × (x ≡ (
          ok,
          record p {
            start_addr =
                ((get_or payload 0 0 * 256 + get_or payload 1 0) * 256 + get_or payload 2 0) * 256
                + get_or payload 3 0;
            start_seen = true;
          },
        )))
    ⊎ (((get_or bytes 3 0 ≡ 2) ⊎ (get_or bytes 3 0 ≡ 3)) × (x ≡ (ok, p)))
    ⊎ (((5 < get_or bytes 3 0)
          ⊎ ((get_or bytes 3 0 ≡ 1) × (len ≢ 0))
          ⊎ ((get_or bytes 3 0 ≡ 4) × (len ≢ 2))
          ⊎ ((get_or bytes 3 0 ≡ 5) × (len ≢ 4)))
        × (x ≡ (err_format, p)))

-- The line is refused, or blank, or the text of a whole record, which means what its type says.
abbrev pub Outcome : HexParser → List ℕ → HexResult × HexParser → Type 0
Outcome p line x =
    (IsRefused x.0 × (x.1 ≡ p))
    ⊎ (All IsBlank line × (x ≡ (ok, p)))
    ⊎ ((len : ℕ) × (bytes : List ℕ) × IsRecord len bytes
        × (p.eof_seen ≡ false)
        × (x ≡ interpret p len bytes)
        × IsText line bytes
        × (len ≡ get_or bytes 0 0)
        × Answers p len bytes (drop 4 bytes) x)

interpret-Answers :
    (p : HexParser) (len : ℕ) (bytes : List ℕ)
    → All IsU8 bytes
    → Answers p len bytes (drop 4 bytes) (interpret p len bytes)
unfolding interpret
interpret-Answers p len bytes h =
    let rest : All IsU8 (drop 4 bytes) = All-drop IsU8 4 bytes h in
    let byte : (i : ℕ) → get_or (drop 4 bytes) i 0 < 256 =
      λ i. All-get_or IsU8 (drop 4 bytes) i 0 (omega arith) rest in
    ground (
      arith,
      bit_or-shift 8 (get_or bytes 1 0) (get_or bytes 2 0)
          (All-get_or IsU8 bytes 2 0 (omega arith) h),
      bit_or-shift 24 (get_or (drop 4 bytes) 0 0) (get_or (drop 4 bytes) 1 0 * 2 ^ 16)
          (omega (arith, byte 1)),
      word_be (get_or (drop 4 bytes) 0 0) (get_or (drop 4 bytes) 1 0) (get_or (drop 4 bytes) 2 0)
          (get_or (drop 4 bytes) 3 0) (byte 0) (byte 1) (byte 2) (byte 3),
    )

-- What the digits behind the mark come to.
abbrev Body : HexParser → List ℕ → HexResult × HexParser → Type 0
Body p s x =
    (IsRefused x.0 × (x.1 ≡ p))
    ⊎ ((len : ℕ) × (bytes : List ℕ) × IsRecord len bytes
        × (x ≡ interpret p len bytes)
        × ((digits : List ℕ) × (after : List ℕ) × (s ≡ digits ++ after)
            × Spells digits bytes
            × All IsBlank after)
        × (len ≡ get_or bytes 0 0))

module _ (p : HexParser) (len : ℕ) (bytes : List ℕ) (sum : ℕ) (s digits tail : List ℕ) where
  check_record-Body :
      len < 256
      → All IsU8 bytes
      → length bytes ≡ 5 + len
      → sum ≡ sum_from 0 bytes
      → s ≡ digits ++ tail
      → Spells digits bytes
      → len ≡ get_or bytes 0 0
      → Body p s (check_record p len (bytes, sum, tail))
  unfolding check_record
  check_record-Body h u size e cut spelled first = go (skip_space tail) refl
    where
      go : (t : List ℕ) → skip_space tail ≡ t → Body p s (check_record p len (bytes, sum, tail))
      go (c ∷ more) et = rw (et, check_record) (inl (tt, refl))
      go [] et = elim (Bool-cases (sum % 256 == 0)) [
        | inl good ↦
            rw (et, check_record)
              (rw good (
                inr (
                  len,
                  bytes,
                  record {
                    small = h;
                    bytes_IsU8 = u;
                    size = size;
                    closes = ground (arith, sum_from-mod 0 bytes);
                  },
                  refl,
                  (digits, tail, cut, spelled, skip_space-IsBlank tail et),
                  first,
                )))
        | inr bad ↦ rw (et, check_record) (rw bad (inl (tt, refl)))
      ]

-- The first pair that the loop reads is the length's.
read_pairs-first :
    (n : ℕ) (s : List ℕ) {len : ℕ} {bytes : List ℕ} {sum : ℕ} {tail : List ℕ}
    → hex_byte_at s ≡ some len
    → read_pairs (suc n) s 0 ≡ some (bytes, sum, tail)
    → len ≡ get_or bytes 0 0
unfolding read_pairs
read_pairs-first n s {len} {bytes} {sum} {tail} el e =
    let (b, eb, e') = >>=-eq-some (hex_byte_at s) _ e in
    let ((more, t, r), em, e'') = >>=-eq-some (read_pairs n (drop 2 s) (u32 (0 + b))) _ e' in
    let whole : bytes ≡ b ∷ more = ground arith in let same : len ≡ b = cc in rw whole same

parse_body-Body : (p : HexParser) (s : List ℕ) → Body p s (parse_body p s)
unfolding parse_body
parse_body-Body p s = elim (Option-cases (hex_byte_at s)) [
  | inl e ↦ rw (e, parse_body) (inl (tt, refl))
  | inr (len, e) ↦ elim (Option-cases (read_pairs (5 + len) s 0)) [
    | inl er ↦ rw (e, parse_body) (rw er (inl (tt, refl)))
    | inr ((bytes, sum, tail), er) ↦
        let facts : All IsU8 bytes × (length bytes ≡ 5 + len) × (sum ≡ sum_from 0 bytes) =
          read_pairs-bytes (5 + len) s 0 er in
        let (digits, cut, spelled) = read_pairs-Spells (5 + len) s 0 er in
        let first : len ≡ get_or bytes 0 0 =
          read_pairs-first (4 + len) s e (ap (λ k. read_pairs k s 0) (omega arith) ∙ er) in
        rw (e, parse_body)
          (rw er (
            check_record-Body p len bytes sum s digits tail (hex_byte_at-IsU8 s e) facts.0 facts.1
              facts.2 cut spelled first))
  ]
]

parse_record-colon :
    (p : HexParser) (c : ℕ) (s : List ℕ)
    → (c == b':') ≡ true
    → p.eof_seen ≡ false
    → parse_record p (c ∷ s) ≡ parse_body p s
unfolding parse_record
parse_record-colon p c s colon live = ground arith

module _ (p : HexParser) (line before : List ℕ) (blank : All IsBlank before) where
  Body-Outcome :
      (s : List ℕ)
      → line ≡ before ++ b':' ∷ s
      → p.eof_seen ≡ false
      → (x : HexResult × HexParser) → Body p s x
      → Outcome p line x
  Body-Outcome s cut live x (inl quiet) = inl quiet
  Body-Outcome s cut live x (inr (len, bytes, r, e, (digits, after, split, spelled, end), first)) =
      let answer : Answers p len bytes (drop 4 bytes) x =
        rw e (interpret-Answers p len bytes r.bytes_IsU8) in
      inr (
        inr (
          len,
          bytes,
          r,
          live,
          e,
          record {
            before = before;
            digits = digits;
            after = after;
            cut = cut ∙ ap (λ t. before ++ b':' ∷ t) split;
            before_IsBlank = blank;
            spells = spelled;
            after_IsBlank = end;
          },
          first,
          answer,
        ))

  parse_record-Outcome : (s : List ℕ) → line ≡ before ++ s → Outcome p line (parse_record p s)
  unfolding parse_record
  parse_record-Outcome [] cut =
      let same : line ≡ before = cut ∙ append-nil before in inr (inl (rw same blank, refl))
  parse_record-Outcome (c ∷ s) cut = elim (Bool-cases (c == b':')) [
    | inr other ↦ rw other (inl (tt, refl))
    | inl colon ↦ elim (Bool-cases p.eof_seen) [
      | inl ended ↦ simp (colon, ended) (inl (tt, refl))
      | inr live ↦
          let mark : c ≡ b':' = ground arith in
          rw (parse_record-colon p c s colon live) (
            Body-Outcome s (cut ∙ ap (λ x. before ++ x ∷ s) mark) live (parse_body p s)
              (parse_body-Body p s))
    ]
  ]

-- Every line is refused with an error and leaves the parser as it was, or is blank and passes, or is the text of a whole record, met before the end-of-file record: a colon and the pairs of hex
-- digits of its bytes, with white space around and nothing else, as many bytes as the first one says,
-- their sum divisible by 256; the answer is then what the type in the fourth byte means, on the
-- address in the second and third and the payload behind.
pub parse_line-Outcome : (p : HexParser) (line : List ℕ) → Outcome p line (hex_parse_line p line)
unfolding hex_parse_line
parse_line-Outcome p line =
    let (before, blank, cut) = skip_space-cut line in
    parse_record-Outcome p line before blank (skip_space line) cut

-- The parser's addresses: the extended address is a multiple of 65536, and all fit 32 bits.
pub record IsValid (p : HexParser) : Type 0 where
  pub aligned : p.ext_addr % 65536 ≡ 0
  pub ext_IsU32 : IsU32 p.ext_addr
  pub start_IsU32 : IsU32 p.start_addr

-- The fields that the switch reads.
pub offset_lt :
    (bytes : List ℕ) → All IsU8 bytes → bit_or (get_or bytes 1 0 * 2 ^ 8) (get_or bytes 2 0) < 65536
offset_lt bytes h = omega (
  arith,
  bit_or-shift 8 (get_or bytes 1 0) (get_or bytes 2 0) (All-get_or IsU8 bytes 2 0 (omega arith) h),
  All-get_or IsU8 bytes 1 0 (omega arith) h,
  All-get_or IsU8 bytes 2 0 (omega arith) h,
)

-- A data record's address lies in the 64 KiB block of the extended address.
pub absolute : (ext off : ℕ) → ext % 65536 ≡ 0 → off < 65536 → bit_or ext off ≡ ext + off
absolute ext off ha ho =
    ap (λ t. bit_or t off) (omega arith) ∙ bit_or-shift 16 (ext / 65536) off ho ∙ omega arith

pub interpret-data :
    (p : HexParser) (len : ℕ) (bytes : List ℕ) (addr : ℕ) (payload : List ℕ) (q : HexParser)
    → interpret p len bytes ≡ (data_record addr payload, q)
    → (q ≡ p)
      × (payload ≡ take len (drop 4 bytes))
      × (addr ≡ bit_or p.ext_addr (bit_or (get_or bytes 1 0 * 2 ^ 8) (get_or bytes 2 0)))
unfolding interpret
interpret-data p len bytes addr payload q e = ground arith

pub interpret-IsValid :
    (p : HexParser) (len : ℕ) (bytes : List ℕ)
    → IsRecord len bytes
    → IsValid p
    → IsValid (interpret p len bytes).1
unfolding interpret
interpret-IsValid p len bytes r v =
    let rest : All IsU8 (drop 4 bytes) = All-drop IsU8 4 bytes r.bytes_IsU8 in
    let byte : (i : ℕ) → get_or (drop 4 bytes) i 0 < 256 =
      λ i. All-get_or IsU8 (drop 4 bytes) i 0 (omega arith) rest in
    ground (
      arith,
      byte 0,
      byte 1,
      byte 2,
      byte 3,
      bit_or-shift 24 (get_or (drop 4 bytes) 0 0) (get_or (drop 4 bytes) 1 0 * 2 ^ 16),
      word_be (get_or (drop 4 bytes) 0 0) (get_or (drop 4 bytes) 1 0) (get_or (drop 4 bytes) 2 0)
          (get_or (drop 4 bytes) 3 0),
    )
