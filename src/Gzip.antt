-- ===== src/Gzip.antt =====
-- src/gzip_stream.h: the streaming gunzip. The inflate core and the checksum are miniz's, which is
-- taken as an interface; the consumer is a callback with a state. A feed goes on with fuel: a round
-- of its loop may consume no byte.
pub mod Feed
pub mod Invariant
pub mod Bounds
pub mod Open
pub mod Stored
pub mod Checksum
pub mod Progress
use teg.Prelude.{
  ℕ, zero, suc, ◌+◌, ◌-◌, ◌*◌, ◌/◌, ◌%◌, ◌^◌, ◌≤◌, ◌<◌, ◌≡◌, Bool, true, false, not, ◌&&◌, ◌||◌,
  Option, none, some, List, [], ◌∷◌, ◌++◌, ltb, ◌==◌, if◌then◌else◌, length, get_or, set, take,
  drop, bit_or,
}
use teg.Prelude.Words.{u32}

pub data State : Type 0 where
  header_fixed header_extra_len header_extra_skip header_name header_comment header_crc : State
  deflate trailer done failed : State

pub data GzipError : Type 0 where
  not_gzip unsupported_method aborted corrupt crc_mismatch truncated : GzipError

-- TINFL_LZ_DICT_SIZE
abbrev pub dict_size : ℕ
dict_size = 32768

pub data TinflStatus : Type 0 where
  status_done needs_more_input has_more_output status_failed : TinflStatus

-- What a call of tinfl_decompress leaves: `in_bytes` of the input are consumed, and `out_bytes` are
-- written to the dictionary from its offset on.
pub record Inflated (Tinfl : Type 0) : Type 0 where
  pub status : TinflStatus
  pub inflater : Tinfl
  pub in_bytes : ℕ
  pub out_bytes : ℕ
  pub dict : List ℕ

-- What the code relies on of miniz: what a call may read and write, what its status means, and the
-- checksum of a text that comes in pieces.
pub record Miniz : Type 1 where
  pub Tinfl : Type 0
  pub tinfl_init : Tinfl
  pub tinfl_decompress : Tinfl → List ℕ → List ℕ → ℕ → Inflated Tinfl
  pub mz_crc32 : ℕ → List ℕ → ℕ
  pub in_bounds :
      (t : Tinfl) (input dict : List ℕ) (offset : ℕ)
      → (tinfl_decompress t input dict offset).in_bytes ≤ length input
  pub out_bounds :
      (t : Tinfl) (input dict : List ℕ) (offset : ℕ)
      → offset < dict_size
      → (tinfl_decompress t input dict offset).out_bytes ≤ dict_size - offset
  pub wants_input :
      (t : Tinfl) (input dict : List ℕ) (offset : ℕ)
      → (tinfl_decompress t input dict offset).status ≡ needs_more_input
      → (tinfl_decompress t input dict offset).in_bytes ≡ length input
  pub wants_space :
      (t : Tinfl) (input dict : List ℕ) (offset : ℕ)
      → (tinfl_decompress t input dict offset).status ≡ has_more_output
      → (tinfl_decompress t input dict offset).out_bytes ≡ dict_size - offset
  pub crc-nothing : (c : ℕ) → mz_crc32 c [] ≡ c
  pub crc-append : (c : ℕ) (xs ys : List ℕ) → mz_crc32 c (xs ++ ys) ≡ mz_crc32 (mz_crc32 c xs) ys
  pub crc-bounds : (c : ℕ) (xs : List ℕ) → c < 2 ^ 32 → mz_crc32 c xs < 2 ^ 32

pub record GzipInflater (Tinfl : Type 0) : Type 0 where
  pub state : State
  pub error_msg : Option GzipError
  pub header_flags : ℕ
  pub field_bytes : ℕ
  pub field_len : ℕ
  pub scratch : List ℕ
  pub inflater : Tinfl
  pub dict_offset : ℕ
  pub dict : List ℕ
  pub crc : ℕ
  pub out_total : ℕ
  pub trailer_bytes : List ℕ

-- `headerFlags & (1 << k)`
abbrev pub has_flag : ℕ → ℕ → Bool
has_flag flags k = not (flags / 2 ^ k % 2 == 0)

unfoldable pub after_comment : ℕ → State
after_comment flags = if has_flag flags 1 then header_crc else deflate

unfoldable pub after_name : ℕ → State
after_name flags = if has_flag flags 4 then header_comment else after_comment flags

unfoldable pub after_extra : ℕ → State
after_extra flags = if has_flag flags 3 then header_name else after_name flags

unfoldable pub after_fixed : ℕ → State
after_fixed flags = if has_flag flags 2 then header_extra_len else after_extra flags

unfoldable pub looks_like_gzip : ℕ → ℕ → Bool
looks_like_gzip first second = first == 0x1F && second == 0x8B

-- The four low bytes of the trailer, the least significant first.
unfoldable pub expect_crc : List ℕ → ℕ
expect_crc t =
    bit_or (bit_or (bit_or (get_or t 0 0) (get_or t 1 0 * 2 ^ 8)) (get_or t 2 0 * 2 ^ 16))
      (get_or t 3 0 * 2 ^ 24)

module _ {T : Type 0} where
  unfoldable pub fail : GzipInflater T → GzipError → Bool × GzipInflater T
  fail g e = (false, record g { state = failed; error_msg = some e })

  -- One byte in each state of the header, of the trailer: whether the feed goes on, and the state.
  unfoldable pub fixed_byte : GzipInflater T → ℕ → Bool × GzipInflater T
  fixed_byte g b =
      let scratch' = set g.scratch g.field_bytes b in
      let next = record g { scratch = scratch'; field_bytes = u32 (g.field_bytes + 1) } in
      let flags = get_or scratch' 3 0 in
      if not (g.field_bytes + 1 == 10)
      then (true, next)
      else if not (get_or scratch' 0 0 == 0x1F) || not (get_or scratch' 1 0 == 0x8B)
      then fail next not_gzip
      else if not (get_or scratch' 2 0 == 8)
      then fail next unsupported_method
      else (true, record next { header_flags = flags; field_bytes = 0; state = after_fixed flags })

  unfoldable pub extra_len_byte : GzipInflater T → ℕ → Bool × GzipInflater T
  extra_len_byte g b =
      let scratch' = set g.scratch g.field_bytes b in
      let next = record g { scratch = scratch'; field_bytes = u32 (g.field_bytes + 1) } in
      let len = bit_or (get_or scratch' 0 0) (get_or scratch' 1 0 * 2 ^ 8) in
      if not (g.field_bytes + 1 == 2) then (true, next) else (
        true,
        record next {
          field_len = len;
          field_bytes = 0;
          state = if ltb 0 len then header_extra_skip else after_extra g.header_flags;
        },
      )

  unfoldable pub extra_skip_byte : GzipInflater T → Bool × GzipInflater T
  extra_skip_byte g =
      if g.field_bytes + 1 == g.field_len
      then (true, record g { field_bytes = 0; state = after_extra g.header_flags })
      else (true, record g { field_bytes = u32 (g.field_bytes + 1) })

  unfoldable pub name_byte : GzipInflater T → ℕ → Bool × GzipInflater T
  name_byte g b = (true, if b == 0 then record g { state = after_name g.header_flags } else g)

  unfoldable pub comment_byte : GzipInflater T → ℕ → Bool × GzipInflater T
  comment_byte g b = (true, if b == 0 then record g { state = after_comment g.header_flags } else g)

  unfoldable pub header_crc_byte : GzipInflater T → Bool × GzipInflater T
  header_crc_byte g =
      if g.field_bytes + 1 == 2
      then (true, record g { field_bytes = 0; state = deflate })
      else (true, record g { field_bytes = u32 (g.field_bytes + 1) })

  -- A byte of the trailer is taken while there is room.
  unfoldable pub take_trailer : GzipInflater T → ℕ → GzipInflater T
  take_trailer g b =
      if ltb g.field_bytes 8
      then (record g {
        trailer_bytes = set g.trailer_bytes g.field_bytes b;
        field_bytes = g.field_bytes + 1;
      })
      else g

  unfoldable pub check_trailer : GzipInflater T → Bool × GzipInflater T
  check_trailer g =
      if not (g.field_bytes == 8)
      then (true, g)
      else if not (expect_crc g.trailer_bytes == g.crc)
      then fail g crc_mismatch
      else (true, record g { state = done })

  unfoldable pub finish_in : State → GzipInflater T → Bool × GzipInflater T
  finish_in done g = (true, g)
  finish_in failed g = (false, g)
  finish_in _ g = fail g truncated

  unfoldable pub finish : GzipInflater T → Bool × GzipInflater T
  finish g = finish_in g.state g

module _ (m : Miniz) {Ctx : Type 0} (emit : Ctx → List ℕ → Bool × Ctx) where
  abbrev pub Inflater : Type 0
  Inflater = GzipInflater m.Tinfl

  -- The scratch, dictionary and trailer arrays keep what they hold.
  unfoldable pub begin : Inflater → Inflater
  begin g = record g {
    state = header_fixed;
    error_msg = none;
    header_flags = 0;
    field_bytes = 0;
    field_len = 0;
    inflater = m.tinfl_init;
    dict_offset = 0;
    crc = 0;
    out_total = 0;
  }

  -- Whether the feed goes on, the inflater, the input that is left, and the consumer.
  abbrev pub Round : Type 0
  Round = Bool × Inflater × List ℕ × Ctx

  abbrev pub on : Bool × Inflater → List ℕ → Ctx → Round
  on (more, g) rest c = (more, g, rest, c)

  -- The part of a round after tinfl_decompress and the emission.
  unfoldable pub judge_status : Inflater → TinflStatus → Bool × Inflater
  judge_status g status_done = (true, record g { field_bytes = 0; state = trailer })
  judge_status g needs_more_input = (true, g)
  judge_status g has_more_output = (true, g)
  judge_status g status_failed = fail g corrupt

  unfoldable pub deflate_round : Inflater → List ℕ → Ctx → Round
  deflate_round g input c =
      let r = m.tinfl_decompress g.inflater input g.dict g.dict_offset in
      let output = take r.out_bytes (drop g.dict_offset r.dict) in
      let rest = drop r.in_bytes input in
      let got = record g { inflater = r.inflater; dict = r.dict } in
      let counted = record got {
        crc = u32 (m.mz_crc32 g.crc output);
        out_total = u32 (g.out_total + r.out_bytes);
      } in
      let sent = emit c output in
      let moved = record counted { dict_offset = (g.dict_offset + r.out_bytes) % dict_size } in
      if r.out_bytes == 0
      then on (judge_status got r.status) rest c
      else if sent.0
      then on (judge_status moved r.status) rest sent.1
      else on (fail counted aborted) rest sent.1

  -- One round of the loop in a state, on a byte that is there and what follows it.
  unfoldable pub round : State → Inflater → ℕ → List ℕ → Ctx → Round
  round header_fixed g b rest c = on (fixed_byte g b) rest c
  round header_extra_len g b rest c = on (extra_len_byte g b) rest c
  round header_extra_skip g b rest c = on (extra_skip_byte g) rest c
  round header_name g b rest c = on (name_byte g b) rest c
  round header_comment g b rest c = on (comment_byte g b) rest c
  round header_crc g b rest c = on (header_crc_byte g) rest c
  round deflate g b rest c = deflate_round g (b ∷ rest) c
  round trailer g b rest c =
      on (check_trailer (take_trailer g b)) (if ltb g.field_bytes 8 then rest else b ∷ rest) c
  round done g b rest c = (true, g, [], c)
  round failed g b rest c = (false, g, b ∷ rest, c)

  -- The result, the inflater and the consumer; `none` where the fuel ran out.
  unfoldable pub feed : ℕ → Inflater → List ℕ → Ctx → Option (Bool × Inflater × Ctx)
  feed fuel g [] c = some (true, g, c)
  feed zero g (b ∷ rest) c = none
  feed (suc fuel) g (b ∷ rest) c =
      let (more, g', rest', c') = round g.state g b rest c in
      let further = feed fuel g' rest' c' in if more then further else some (false, g', c')
