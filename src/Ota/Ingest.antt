-- ===== src/Ota/Ingest.antt =====
-- src/ota_ingest.h: the ingest state machine. It assembles lines from the body, has them parsed
-- (`Hex`), checks the addresses and stages the bytes, erasing each sector before its first write.
-- `line` holds the first `lineLen` characters of the source's buffer of 600. A function returns
-- its `bool`, the new state, and the calls of the flash callbacks in order.
pub mod Bitmap
pub mod Erase
pub mod Invariant
pub mod Staged
pub mod Record
pub mod Feed
pub mod Carried
pub mod Finish
use teg.Prelude.{
  ℕ, zero, suc, ◌+◌, ◌-◌, ◌*◌, ◌/◌, ◌%◌, ◌^◌, Bool, true, false, not, ◌&&◌, ◌||◌, Option, none,
  some, List, [], ◌∷◌, ◌++◌, ltb, leb, ◌==◌, if◌then◌else◌, length, get_or, set, replicate, bit_or,
  bit_xor,
}
use teg.Prelude.Words.{u8, add32, sub32, u32}
use teg.Ota.Hex.{
  HexParser, HexResult, ok, data_record, eof, err_format, err_checksum, err_after_eof,
  hex_parse_line,
}
use teg.Ota.Hex
use teg.Ota.Crc.{crc32_update}
use teg.Ota.Verify.{VerifyError}
use teg.Ota.Flash.{
  FlashOp, erase_sector, write, flash_base, buffer_base, image_max, sector_size, sector_count,
}

pub data OtaError : Type 0 where
  below_flash_base exceeds_buffer not_contiguous line_too_long : OtaError
  checksum_mismatch data_after_eof malformed truncated no_data : OtaError
  stalled : OtaError  -- set by the upload loop of src/ota.cpp
  rejected : VerifyError → OtaError  -- likewise, with the failed check

pub record OtaIngest : Type 0 where
  pub hex : HexParser
  pub min_addr : ℕ
  pub max_addr : ℕ
  pub next_addr : ℕ
  pub have_data : Bool
  pub bytes_written : ℕ
  pub crc : ℕ
  pub line_count : ℕ
  pub line : List ℕ
  pub erased : List ℕ
  pub error : Option OtaError
  pub eof_seen : Bool

unfoldable pub ota_ingest_init : OtaIngest
ota_ingest_init = record {
  hex = Hex.initial;
  min_addr = 0xFFFFFFFF;
  max_addr = 0;
  next_addr = 0;
  have_data = false;
  bytes_written = 0;
  crc = 0xFFFFFFFF;
  line_count = 0;
  line = [];
  erased = replicate 120 0;
  error = none;
  eof_seen = false;
}

unfoldable pub ota_ingest_crc : OtaIngest → ℕ
ota_ingest_crc s = bit_xor s.crc 0xFFFFFFFF

-- `sector >> 3` and `sector & 7` are the byte and the bit.
unfoldable pub ota_sector_erased : List ℕ → ℕ → Bool
ota_sector_erased erased sector = not (get_or erased (sector / 8) 0 / 2 ^ (sector % 8) % 2 == 0)

unfoldable pub ota_mark_erased : List ℕ → ℕ → List ℕ
ota_mark_erased erased sector =
    set erased (sector / 8) (bit_or (get_or erased (sector / 8) 0) (u8 (2 ^ (sector % 8))))

-- The erase-on-demand loop, with the rounds left first; `sec` goes up to `last` inclusive.
unfoldable pub erase_loop : ℕ → ℕ → ℕ → List ℕ → List ℕ × List FlashOp
erase_loop zero sec last erased = (erased, [])
erase_loop (suc rounds) sec last erased =
    let fresh = not (ota_sector_erased erased sec) in
    let erased' = if fresh then ota_mark_erased erased sec else erased in
    let ops : List FlashOp =
      if fresh then erase_sector (buffer_base + sec * sector_size) ∷ [] else [] in
    let rest = erase_loop rounds (sec + 1) last erased' in
    if leb sec last && ltb sec sector_count then (rest.0, ops ++ rest.1) else (erased, [])

abbrev pub Step : Type 0
Step = Bool × OtaIngest × List FlashOp

abbrev pub fail : OtaIngest → OtaError → Step
fail s e = (false, record s { error = some e }, [])

-- The part behind the contiguity check: erase, write, account.
unfoldable pub stage_data : OtaIngest → ℕ → List ℕ → Step
stage_data s addr bytes =
    let off = sub32 addr flash_base in
    let count = length bytes in
    let first = off / sector_size in
    let last = (off + count - 1) / sector_size in
    let (erased', ops) = erase_loop (last + 1 - first) first last s.erased in
    (
      true,
      record s {
        erased = erased';
        crc = crc32_update s.crc bytes;
        next_addr = add32 addr count;
        max_addr = if ltb s.max_addr (addr + count - 1) then addr + count - 1 else s.max_addr;
        bytes_written = (s.bytes_written + count) % 2 ^ 64;
      },
      ops ++ write (buffer_base + off) bytes ∷ [],
    )

unfoldable pub ota_handle_data : OtaIngest → ℕ → List ℕ → Step
ota_handle_data s addr bytes =
    let off = sub32 addr flash_base in
    let count = length bytes in
    let first_record = record s { have_data = true; min_addr = addr } in
    if count == 0
    then (true, s, [])
    else if ltb addr flash_base
    then fail s below_flash_base
    else if leb image_max off || ltb (image_max - off) count
    then fail s exceeds_buffer
    else if s.have_data
    then (if not (addr == s.next_addr) then fail s not_contiguous else stage_data s addr bytes)
    else stage_data first_record addr bytes

-- `s.line[s.lineLen] = '\0'`: the parser sees the characters before the first NUL.
unfoldable pub c_string : List ℕ → List ℕ
c_string [] = []
c_string (c ∷ cs) = if c == 0 then [] else c ∷ c_string cs

-- The switch on the parser's answer.
unfoldable pub handle_result : OtaIngest → HexResult → Step
handle_result s ok = (true, s, [])
handle_result s (data_record addr bytes) = ota_handle_data s addr bytes
handle_result s eof = (true, record s { eof_seen = true }, [])
handle_result s err_checksum = fail s checksum_mismatch
handle_result s err_after_eof = fail s data_after_eof
handle_result s err_format = fail s malformed

unfoldable pub end_line : OtaIngest → Step
end_line s =
    let (r, p) = hex_parse_line s.hex (c_string s.line) in
    handle_result (record s { hex = p; line = []; line_count = u32 (s.line_count + 1) }) r

unfoldable pub ota_feed_byte : OtaIngest → ℕ → Step
ota_feed_byte s c = elim s.error [
  | some e ↦ (false, s, [])
  | none ↦
      if not (c == b'\n')
      then (if ltb (length s.line) 599
          then (true, record s { line = s.line ++ c ∷ [] }, [])
          else fail s line_too_long)
      else end_line s
]

-- The two checks that end `otaIngestFinish`.
unfoldable pub finish_checks : OtaIngest → Bool × OtaIngest
finish_checks s =
    if not s.eof_seen
    then (false, record s { error = some truncated })
    else if s.bytes_written == 0
    then (false, record s { error = some no_data })
    else (true, s)

-- Behind the trailing line's `otaFeedByte`: its failure ends the function.
abbrev pub finish_after : Step → Step
finish_after (false, s, ops) = (false, s, ops)
finish_after (true, s, ops) = let (done, s') = finish_checks s in (done, s', ops)

unfoldable pub ota_ingest_finish : OtaIngest → Step
ota_ingest_finish s = elim s.error [
  | some e ↦ (false, s, [])
  | none ↦ elim s.line [
    | [] ↦ finish_after (true, s, [])
    | c ∷ cs ↦ finish_after (ota_feed_byte s b'\n')
  ]
]

-- The upload loop of src/ota.cpp: bytes are fed in order until one is refused.
unfoldable pub feed_all : OtaIngest → List ℕ → Step
feed_all s [] = (true, s, [])
feed_all s (c ∷ cs) =
    let (good, s', ops) = ota_feed_byte s c in
    let (good', s'', more) = feed_all s' cs in
    if good then (good', s'', ops ++ more) else (false, s', ops)
