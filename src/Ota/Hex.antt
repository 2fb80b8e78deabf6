-- ===== src/Ota/Hex.antt =====
-- src/hex_parse.h: the streaming Intel HEX parser, one line to a call.
-- A line is the list of its characters before the NUL, so a read at the NUL or past the end gives
-- 0, which is no hex digit; `hexNibble`'s and `hexByteAt`'s -1 is `none`.
-- `*addr`, `data` and `*count` are written on HexData only, so they stand in that result.
pub mod Spec
pub mod Digits
pub mod RoundTrip
pub mod Sound
pub mod Text
pub mod State
use teg.Prelude.{
  ◌>>=◌, ℕ, zero, suc, ◌+◌, ◌-◌, ◌*◌, ◌%◌, ◌^◌, Bool, true, false, not, ◌&&◌, ◌||◌, Option, none,
  some, List, [], ◌∷◌, leb, ◌==◌, if◌then◌else◌, get_or, drop, take, bit_or,
}
use teg.Prelude.Words.{u32}

pub data HexResult : Type 0 where
  ok : HexResult
  data_record : ℕ → List ℕ → HexResult
  eof err_format err_checksum err_after_eof : HexResult

pub record HexParser : Type 0 where
  pub ext_addr : ℕ
  pub start_addr : ℕ
  pub start_seen : Bool
  pub eof_seen : Bool

abbrev pub initial : HexParser
initial = record { ext_addr = 0; start_addr = 0; start_seen = false; eof_seen = false }

unfoldable pub hex_nibble : ℕ → Option ℕ
hex_nibble c =
    if leb b'0' c && leb c b'9'
    then some (c - b'0')
    else if leb b'A' c && leb c b'F'
    then some (c - b'A' + 10)
    else if leb b'a' c && leb c b'f'
    then some (c - b'a' + 10)
    else none

unfoldable pub hex_byte_at : List ℕ → Option ℕ
hex_byte_at s = do
  hi ← hex_nibble (get_or s 0 0)
  lo ← hex_nibble (get_or s 1 0)
  some (bit_or (hi * 2 ^ 4) lo)

abbrev pub is_space : ℕ → Bool
is_space c = c == b' ' || c == b'\t' || c == b'\r' || c == b'\n'

unfoldable pub skip_space : List ℕ → List ℕ
skip_space [] = []
skip_space (c ∷ s) = if is_space c then skip_space s else c ∷ s

-- The loop over the record's byte pairs: the bytes, their sum, and where the loop stopped.
unfoldable pub read_pairs : ℕ → List ℕ → ℕ → Option (List ℕ × ℕ × List ℕ)
read_pairs zero s sum = some ([], sum, s)
read_pairs (suc n) s sum = do
  b ← hex_byte_at s
  (bytes, total, tail) ← read_pairs n (drop 2 s) (u32 (sum + b))
  some (b ∷ bytes, total, tail)

-- The switch on the record type.
unfoldable pub interpret : HexParser → ℕ → List ℕ → HexResult × HexParser
interpret p len bytes =
    let offset = bit_or (get_or bytes 1 0 * 2 ^ 8) (get_or bytes 2 0) in
    let kind = get_or bytes 3 0 in
    let payload = drop 4 bytes in
    let word =
      bit_or
        (bit_or (bit_or (get_or payload 0 0 * 2 ^ 24) (get_or payload 1 0 * 2 ^ 16))
          (get_or payload 2 0 * 2 ^ 8))
        (get_or payload 3 0) in
    if kind == 0x00
    then (data_record (bit_or p.ext_addr offset) (take len payload), p)
    else if kind == 0x01
    then (if not (len == 0) then (err_format, p) else (eof, record p { eof_seen = true }))
    else if kind == 0x04
    then (if not (len == 2) then (err_format, p) else (
      ok,
      record p { ext_addr = bit_or (get_or payload 0 0 * 2 ^ 24) (get_or payload 1 0 * 2 ^ 16) },
    ))
    else if kind == 0x05
    then (if not (len == 4)
        then (err_format, p)
        else (ok, record p { start_addr = word; start_seen = true }))
    else if kind == 0x02 || kind == 0x03
    then (ok, p)
    else (err_format, p)

-- Behind the pairs: only white space may follow, and the sum must be 0 modulo 256.
unfoldable pub check_record : HexParser → ℕ → List ℕ × ℕ × List ℕ → HexResult × HexParser
check_record p len (bytes, sum, tail) = elim (skip_space tail) [
  | c ∷ more ↦ (err_format, p)
  | [] ↦ if not (sum % 256 == 0) then (err_checksum, p) else interpret p len bytes
]

unfoldable pub parse_body : HexParser → List ℕ → HexResult × HexParser
parse_body p s = elim (hex_byte_at s) [
  | none ↦ (err_format, p)
  | some len ↦ elim (read_pairs (5 + len) s 0) [
    | none ↦ (err_format, p)
    | some r ↦ check_record p len r
  ]
]

unfoldable pub parse_record : HexParser → List ℕ → HexResult × HexParser
parse_record p [] = (ok, p)
parse_record p (c ∷ s) =
    if not (c == b':')
    then (err_format, p)
    else if p.eof_seen
    then (err_after_eof, p)
    else parse_body p s

unfoldable pub hex_parse_line : HexParser → List ℕ → HexResult × HexParser
hex_parse_line p line = parse_record p (skip_space line)
