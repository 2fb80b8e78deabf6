-- ===== src/Ota/Hex/State.antt =====
-- src/hex_parse.h: what a line may do to the parser's state, and what a data record carries.
use teg.Prelude.{
  ℕ, ◌+◌, ◌*◌, ◌^◌, ◌<◌, ◌≤◌, ◌≡◌, ap, sym, ◌∙◌, inl, inr, ◌⊎◌, ◌≢◌, ◌∷◌, ◌++◌, [], refl, true,
  false, List, length, get_or, take, drop, All, All-drop, All-take, All-get_or, ◌-◌, length-drop,
  length-take, bit_or, arith,
}
use teg.Prelude.Words.{IsU8, IsU32}
use teg.Prelude.Bits.{bit_or-shift}
use teg.Ota.Hex.{
  HexParser, HexResult, ok, err_format, err_after_eof, data_record, interpret, hex_parse_line,
  parse_record, skip_space,
}
use teg.Ota.Hex.Text.{IsBlank, skip_space-cut, skip_space-IsBlank, skip_space-head}
use teg.Ota.Hex.Sound.{
  IsRecord, IsValid, parse_line-Outcome, offset_lt, absolute, interpret-data, interpret-IsValid,
}

-- Every line, accepted or not, keeps the parser's addresses aligned and within 32 bits.
pub parse_line-IsValid :
    (p : HexParser) (line : List ℕ) → IsValid p → IsValid (hex_parse_line p line).1
parse_line-IsValid p line v = elim (parse_line-Outcome p line) [
  | inl (refused, same) ↦ rw same v
  | inr (inl (blank, same)) ↦ rw same v
  | inr (inr (len, bytes, r, live, e, text, first, answer)) ↦
      rw e (interpret-IsValid p len bytes r v)
]

-- What a line that is accepted as data carries: at most 255 bytes, taken from a whole record whose
-- bytes add up to 0 modulo 256, at the address that the record's two address bytes give within the
-- 64 KiB block of the extended address.
pub record IsData (p : HexParser) (addr : ℕ) (payload : List ℕ) : Type 0 where
  pub bytes : List ℕ
  pub whole : IsRecord (length payload) bytes
  pub payload_IsU8 : All IsU8 payload
  pub cut : payload ≡ take (length payload) (drop 4 bytes)
  pub placed : addr ≡ p.ext_addr + (get_or bytes 1 0 * 2 ^ 8 + get_or bytes 2 0)
  pub in_block : addr < p.ext_addr + 65536
  pub addr_IsU32 : IsU32 addr
  pub live : p.eof_seen ≡ false

-- A line accepted as data leaves the parser as it was and carries such data.
pub parse_line-IsData :
    (p : HexParser) (line : List ℕ) {addr : ℕ} {payload : List ℕ} {q : HexParser}
    → IsValid p
    → hex_parse_line p line ≡ (data_record addr payload, q)
    → IsData p addr payload × (q ≡ p)
parse_line-IsData p line {addr} {payload} {q} v e = elim (parse_line-Outcome p line) [
  | inl (refused, same) ↦ absurd (rw e at refused)
  | inr (inl (blank, same)) ↦
      absurd (let no_go : (data_record addr payload, q) ≡ (ok, p) = sym e ∙ same in cc)
  | inr (inr (len, bytes, r, live, i, text, first, answer)) ↦
      from_record len bytes r live (sym i ∙ e)
]
  where
    from_record :
        (len : ℕ) (bytes : List ℕ)
        → IsRecord len bytes
        → p.eof_seen ≡ false
        → interpret p len bytes ≡ (data_record addr payload, q)
        → IsData p addr payload × (q ≡ p)
    from_record len bytes r live i =
        let (same, cut, at) = interpret-data p len bytes addr payload q i in
        let data_size : length (drop 4 bytes) ≡ length bytes - 4 = length-drop 4 bytes in
        let room : len ≤ length (drop 4 bytes) = omega (arith, r.size) in
        let count : length payload ≡ len = ap length cut ∙ length-take len (drop 4 bytes) room in
        let offset : bit_or (get_or bytes 1 0 * 2 ^ 8) (get_or bytes 2 0) < 65536 =
          offset_lt bytes r.bytes_IsU8 in
        let sum : addr ≡ p.ext_addr + bit_or (get_or bytes 1 0 * 2 ^ 8) (get_or bytes 2 0) =
          at ∙ absolute p.ext_addr _ v.aligned offset in
        (
          record {
            bytes = bytes;
            whole = rw count r;
            payload_IsU8 =
                rw cut (All-take IsU8 len (drop 4 bytes) (All-drop IsU8 4 bytes r.bytes_IsU8));
            cut = rw count cut;
            placed =
                sum
                ∙ ap (λ t. p.ext_addr + t)
                    (bit_or-shift 8 (get_or bytes 1 0) (get_or bytes 2 0)
                      (All-get_or IsU8 bytes 2 0 (omega arith) r.bytes_IsU8));
            in_block = omega (arith, sum, offset);
            addr_IsU32 = omega (arith, sum, offset, v.aligned, v.ext_IsU32);
            live = live;
          },
          same,
        )

-- A blank line; the start of a record, behind white space; anything else.
abbrev pub Ended : List ℕ → HexResult → Type 0
Ended line answer =
    (All IsBlank line × (answer ≡ ok))
    ⊎ ((before : List ℕ) × (c : ℕ) × (rest : List ℕ) × All IsBlank before
        × (line ≡ before ++ c ∷ rest)
        × (((c ≡ b':') × (answer ≡ err_after_eof))
            ⊎ ((c ≢ b':')
                × (c ≢ b' ')
                × (c ≢ b'\t')
                × (c ≢ b'\r')
                × (c ≢ b'\n')
                × (answer ≡ err_format))))

ended_record :
    (p : HexParser) (c : ℕ) (s : List ℕ)
    → p.eof_seen ≡ true
    → ((c ≡ b':') × (parse_record p (c ∷ s) ≡ (err_after_eof, p)))
      ⊎ ((c ≢ b':') × (parse_record p (c ∷ s) ≡ (err_format, p)))
unfolding parse_record
ended_record p c s ended = ground arith

-- After the end-of-file record no record is accepted: the parser stays as it is, a blank line passes,
-- a line whose first character is a colon is answered with the error of a record after the end, and
-- any other line with the format error.
pub after_eof :
    (p : HexParser) (line : List ℕ)
    → p.eof_seen ≡ true
    → Ended line (hex_parse_line p line).0 × ((hex_parse_line p line).1 ≡ p)
unfolding hex_parse_line parse_record
after_eof p line ended = go (skip_space line) refl
  where
    go :
        (t : List ℕ)
        → skip_space line ≡ t
        → Ended line (parse_record p (skip_space line)).0
          × ((parse_record p (skip_space line)).1 ≡ p)
    go [] e = rw e (inl (skip_space-IsBlank line e, refl), refl)
    go (c ∷ s) e =
        let (before, blank, cut) = skip_space-cut line in
        let (a, b, d, f) = skip_space-head line e in
        let whole : line ≡ before ++ c ∷ s = cut ∙ ap (λ t. before ++ t) e in
        elim (ended_record p c s ended) [
          | inl (colon, r) ↦ rw (e, r) (inr (before, c, s, blank, whole, inl (colon, refl)), refl)
          | inr (other, r) ↦
              rw (e, r) (inr (before, c, s, blank, whole, inr (other, a, b, d, f, refl)), refl)
        ]
