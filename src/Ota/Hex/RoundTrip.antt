-- ===== src/Ota/Hex/RoundTrip.antt =====
-- src/hex_parse.h: records that are printed and read again.
use teg.Prelude.{
  ℕ, ◌+◌, ◌*◌, ◌/◌, ◌%◌, ◌^◌, ◌<◌, ◌≡◌, refl, ap, ◌∙◌, true, false, some, List, [], ◌∷◌, ◌++◌,
  length, length-append, take, All, All-append, bit_or, arith,
}
use teg.Prelude.Words.{IsU8}
use teg.Prelude.Bits.{bit_or-shift}
use teg.Ota.Hex.{
  HexParser, ok, data_record, eof, is_space, skip_space, read_pairs, hex_byte_at, interpret,
  check_record, parse_body, parse_record, hex_parse_line,
}
use teg.Ota.Hex.Spec.{total, hex_text, record_body, checksum, record_bytes, record_text}
use teg.Ota.Hex.Digits.{sum_from, sum_from-mod, hex_byte_at-text, read_pairs-text}

-- White space only.
abbrev pub IsBlank : List ℕ → Type 0
IsBlank = All (λ c. is_space c ≡ true)

pub skip_space-IsBlank : (s : List ℕ) → IsBlank s → skip_space s ≡ []
unfolding skip_space
skip_space-IsBlank [] h = refl
skip_space-IsBlank (c ∷ s) h = ground (arith, skip_space-IsBlank s h.1)

total-append : (xs ys : List ℕ) → total (xs ++ ys) ≡ total xs + total ys
unfolding total
total-append [] ys = omega arith
total-append (x ∷ xs) ys = omega (arith, total-append xs ys)

-- A record's bytes add up to 0 modulo 256.
total-record :
    (offset kind : ℕ) (payload : List ℕ) → total (record_bytes offset kind payload) % 256 ≡ 0
unfolding record_bytes
total-record offset kind payload = rw (total-append body (checksum body ∷ [])) closes
  where
    body : List ℕ
    body = record_body offset kind payload

    closes : (total body + total (checksum body ∷ [])) % 256 ≡ 0
    closes = unfold total checksum in omega arith

length-record :
    (offset kind : ℕ) (payload : List ℕ)
    → length (record_bytes offset kind payload) ≡ 5 + length payload
unfolding record_bytes
length-record offset kind payload =
    omega (arith, length-append {0} payload (checksum (record_body offset kind payload) ∷ []))

IsU8-record :
    (offset kind : ℕ) (payload : List ℕ)
    → offset < 65536
    → kind < 256
    → length payload < 256
    → All IsU8 payload
    → All IsU8 (record_bytes offset kind payload)
unfolding record_bytes
IsU8-record offset kind payload ho hk hl hp =
    All-append IsU8 (record_body offset kind payload)
      (checksum (record_body offset kind payload) ∷ []) (hl, (omega arith, (omega arith, (hk, hp))))
      (small, tt)
  where
    small : checksum (record_body offset kind payload) < 256
    small = unfold checksum in omega arith

first_byte :
    (offset kind : ℕ) (payload tail : List ℕ)
    → length payload < 256
    → hex_byte_at (hex_text (record_bytes offset kind payload) ++ tail) ≡ some (length payload)
unfolding record_bytes hex_text
first_byte offset kind payload tail h = hex_byte_at-text (length payload) _ h

read_record :
    (offset kind : ℕ) (payload tail : List ℕ)
    → All IsU8 (record_bytes offset kind payload)
    → read_pairs (5 + length payload) (hex_text (record_bytes offset kind payload) ++ tail) 0
      ≡ some (record_bytes offset kind payload, sum_from 0 (record_bytes offset kind payload), tail)
read_record offset kind payload tail h =
    rw (← length-record offset kind payload)
      (read_pairs-text (record_bytes offset kind payload) tail 0 h)

sum_closes :
    (offset kind : ℕ) (payload : List ℕ) → sum_from 0 (record_bytes offset kind payload) % 256 ≡ 0
sum_closes offset kind payload =
    omega
      (arith, sum_from-mod 0 (record_bytes offset kind payload), total-record offset kind payload)

-- A record with white space behind it comes to the switch with its own bytes.
pub parse_line-record :
    (p : HexParser) (offset kind : ℕ) (payload tail : List ℕ)
    → p.eof_seen ≡ false
    → offset < 65536
    → kind < 256
    → length payload < 256
    → All IsU8 payload
    → IsBlank tail
    → hex_parse_line p (record_text offset kind payload ++ tail)
      ≡ interpret p (length payload) (record_bytes offset kind payload)
unfolding hex_parse_line skip_space record_text parse_record parse_body check_record
parse_line-record p offset kind payload tail live ho hk hl hp blank = ground (
  arith,
  first_byte offset kind payload tail hl,
  read_record offset kind payload tail (IsU8-record offset kind payload ho hk hl hp),
  skip_space-IsBlank tail blank,
  sum_closes offset kind payload,
)

take-append : (xs ys : List ℕ) → take (length xs) (xs ++ ys) ≡ xs
take-append [] ys = refl
take-append (x ∷ xs) ys = ap (λ t. x ∷ t) (take-append xs ys)

-- Round trip of a data record: a live parser reads the record that encodes an offset and up to 255
-- bytes back as exactly these bytes, at the offset below the extended address, and does not change.
pub parse-data_record :
    (p : HexParser) (offset : ℕ) (payload tail : List ℕ)
    → p.eof_seen ≡ false
    → offset < 65536
    → length payload < 256
    → All IsU8 payload
    → IsBlank tail
    → hex_parse_line p (record_text offset 0 payload ++ tail)
      ≡ (data_record (bit_or p.ext_addr offset) payload, p)
unfolding interpret record_bytes
parse-data_record p offset payload tail live ho hl hp blank =
    parse_line-record p offset 0 payload tail live ho (omega arith) hl hp blank
    ∙ rw (take-append payload (checksum (record_body offset 0 payload) ∷ []))
        (ap (λ t. (data_record (bit_or p.ext_addr t) payload, p)) fields)
  where
    fields : bit_or (offset / 256 * 2 ^ 8) (offset % 256) ≡ offset
    fields = bit_or-shift 8 (offset / 256) (offset % 256) (omega arith) ∙ omega arith

-- A control record, read by a live parser and followed by blanks: an EOF record ends the stream; an extended-address record with the upper half
-- `hi` makes `hi * 65536` the base of the data records that follow. Nothing else changes.
pub parse-control_record :
    (p : HexParser) (hi : ℕ) (tail : List ℕ)
    → p.eof_seen ≡ false
    → hi < 65536
    → IsBlank tail
    → (hex_parse_line p (record_text 0 1 [] ++ tail) ≡ (eof, record p { eof_seen = true }))
      × (hex_parse_line p (record_text 0 4 ((hi / 256) ∷ (hi % 256) ∷ []) ++ tail)
          ≡ (ok, record p { ext_addr = hi * 65536 }))
unfolding interpret record_bytes
parse-control_record p hi tail live hh blank = (
  parse_line-record p 0 1 [] tail live (omega arith) (omega arith) (omega arith) tt blank,
  parse_line-record p 0 4 ((hi / 256) ∷ (hi % 256) ∷ []) tail live (omega arith) (omega arith)
        (omega arith) (omega arith, (omega arith, tt)) blank
      ∙ ap (λ t. (ok, record p { ext_addr = t })) base,
)
  where
    base : bit_or (hi / 256 * 2 ^ 24) (hi % 256 * 2 ^ 16) ≡ hi * 65536
    base =
        ap (λ t. bit_or t (hi % 256 * 2 ^ 16)) (omega arith)
        ∙ bit_or-shift 24 (hi / 256) (hi % 256 * 2 ^ 16) (omega arith)
        ∙ omega arith
