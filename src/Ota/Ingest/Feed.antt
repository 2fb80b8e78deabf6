-- ===== src/Ota/Ingest/Feed.antt =====
-- src/ota_ingest.h, `otaFeedByte`, and the upload loop of src/ota.cpp: one byte and many.
use teg.Prelude.{
  ℕ, zero, suc, ◌+◌, ◌%◌, ◌≡◌, refl, ◌⊎◌, inl, inr, Bool, true, false, Bool-cases, List, [], ◌∷◌,
  ◌++◌, append_assoc, All-append, get_or, replicate, ◌/◌, ◌^◌, arith,
}
use native.Mathlib.Nat.{zero-div}
use teg.Prelude.Words.{u32}
use teg.Ota.Hex.{
  HexParser, HexResult, ok, data_record, eof, err_format, err_checksum, err_after_eof,
  hex_parse_line,
}
use teg.Ota.Hex.Sound.{IsValid}
use teg.Ota.Hex.State.{IsData, parse_line-IsData, parse_line-IsValid}
use teg.Ota.Crc.{crc32_update}
use teg.Ota.Flash.{Memory, replay, replay-append}
use teg.Ota.Ingest.{
  OtaIngest, Step, fail, ota_ingest_init, ota_sector_erased, handle_result, end_line, c_string,
  ota_feed_byte, feed_all, line_too_long, checksum_mismatch, data_after_eof, malformed,
}
use teg.Ota.Ingest.Erase.{InBuffer}
use teg.Ota.Ingest.Invariant.{written, written-append, Staged, Good, Good-quiet, Good-fail, reframe}
use teg.Ota.Ingest.Record.{Good-handle}

-- What the parser may answer, as far as staging cares.
abbrev Answer : HexParser → HexResult × HexParser → Type 0
Answer p (data_record addr bs, q) = IsData p addr bs
Answer p _ = Unit {0}

parse-Answer : (p : HexParser) (line : List ℕ) → IsValid p → Answer p (hex_parse_line p line)
parse-Answer p line v = go (hex_parse_line p line) refl
  where
    go : (x : HexResult × HexParser) → hex_parse_line p line ≡ x → Answer p x
    go (ok, q) e = tt
    go (data_record addr bs, q) e = (parse_line-IsData p line v e).0
    go (eof, q) e = tt
    go (err_format, q) e = tt
    go (err_checksum, q) e = tt
    go (err_after_eof, q) e = tt

handle_result-Good :
    {m : Memory} {s : OtaIngest} {img : List ℕ} (p : HexParser) (r : HexResult) (q : HexParser)
    → Staged m s img
    → Answer p (r, q)
    → Good m img (handle_result s r)
unfolding handle_result
handle_result-Good p ok q v a = Good-quiet true v
handle_result-Good p (data_record addr bs) q v a =
    Good-handle addr bs v a.addr_IsU32 a.payload_IsU8 a.whole.small
handle_result-Good {s = s} p eof q v a =
    Good-quiet true (reframe s.hex s.line s.line_count s.error true v.hex_valid v)
handle_result-Good p err_format q v a = Good-fail malformed v
handle_result-Good p err_checksum q v a = Good-fail checksum_mismatch v
handle_result-Good p err_after_eof q v a = Good-fail data_after_eof v

end_line-Good :
    {m : Memory} {s : OtaIngest} {img : List ℕ} → Staged m s img → Good m img (end_line s)
unfolding end_line
end_line-Good {s = s} v =
    handle_result-Good s.hex (hex_parse_line s.hex (c_string s.line)).0
      (hex_parse_line s.hex (c_string s.line)).1
      (reframe (hex_parse_line s.hex (c_string s.line)).1 [] (u32 (s.line_count + 1)) s.error
        s.eof_seen (parse_line-IsValid s.hex (c_string s.line) v.hex_valid) v)
      (parse-Answer s.hex (c_string s.line) v.hex_valid)

feed_cases :
    (s : OtaIngest) (c : ℕ)
    → (ota_feed_byte s c ≡ end_line s)
      ⊎ (ota_feed_byte s c ≡ (true, record s { line = s.line ++ c ∷ [] }, []))
      ⊎ (ota_feed_byte s c ≡ fail s line_too_long)
      ⊎ (ota_feed_byte s c ≡ (false, s, []))
unfolding ota_feed_byte
feed_cases s c = ground arith

-- Any byte, in any state that satisfies the invariant: the flash calls that it causes stay within
-- the staging buffer, and afterwards the flash holds the image so far with the bytes written behind
-- it, which the state's addresses, counts and running CRC describe.
pub feed_byte-Good :
    {m : Memory} {s : OtaIngest} {img : List ℕ} (c : ℕ)
    → Staged m s img
    → Good m img (ota_feed_byte s c)
feed_byte-Good {m} {s} {img} c v = elim (feed_cases s c) [
  | inl e ↦ rw e (end_line-Good v)
  | inr (inl e) ↦ rw e (
      Good-quiet true
        (reframe s.hex (s.line ++ c ∷ []) s.line_count s.error s.eof_seen v.hex_valid v))
  | inr (inr (inl e)) ↦ rw e (Good-fail line_too_long v)
  | inr (inr (inr e)) ↦ rw e (Good-quiet false v)
]

get_or-zeros : (n i : ℕ) → get_or {A = ℕ} (replicate n 0) i 0 ≡ 0
get_or-zeros zero i = refl
get_or-zeros (suc n) zero = refl
get_or-zeros (suc n) (suc i) = get_or-zeros n i

none_erased : (n k : ℕ) → ota_sector_erased (replicate n 0) k ≡ false
unfolding ota_sector_erased
none_erased n k = ground (arith, get_or-zeros n (k / 8), zero-div (2 ^ (k % 8)))

-- A fresh machine satisfies the invariant over any flash contents, with no image.
pub init-Staged : (m : Memory) → Staged m ota_ingest_init []
unfolding ota_ingest_init crc32_update
init-Staged m = record {
  hex_valid = omega arith;
  bitmap = refl;
  crc_of = refl;
  bytes_of = refl;
  img_IsU8 = tt;
  idle = λ t. (refl, refl, none_erased 120);
  busy = λ t. absurd (cc);
}

-- Two steps in a row.
pub Good-then :
    {m : Memory} {img : List ℕ} {x : Step} {y : Step} (b : Bool)
    → Good m img x
    → Good (replay x.2 m) (img ++ written x.2) y
    → Good m img (b, y.1, x.2 ++ y.2)
Good-then {m} {img} {x} {y} b g h = record {
  inside = All-append InBuffer x.2 y.2 g.inside h.inside;
  staged =
      rw
        (
          replay-append x.2 y.2 m,
          written-append x.2 y.2,
          ← append_assoc img (written x.2) (written y.2),
        )
        h.staged;
}

-- Any stream of bytes, fed to a state that describes the staging buffer: the flash calls stay within
-- the buffer, and the flash after them holds the staged image with the bytes that were written behind
-- it, whose number and CRC the state has.
pub feed_all-Good :
    (cs : List ℕ) (m : Memory) (s : OtaIngest) (img : List ℕ)
    → Staged m s img
    → Good m img (feed_all s cs)
unfolding feed_all
feed_all-Good [] m s img v = Good-quiet true v
feed_all-Good (c ∷ cs) m s img v =
    let step = ota_feed_byte s c in
    let g : Good m img step = feed_byte-Good c v in
    let h = feed_all-Good cs (replay step.2 m) step.1 (img ++ written step.2) g.staged in
    elim (Bool-cases (ota_feed_byte s c).0) [
      | inl good ↦ rw good (Good-then (feed_all (ota_feed_byte s c).1 cs).0 g h)
      | inr bad ↦ rw bad (record { inside = g.inside; staged = g.staged })
    ]
