-- ===== src/Ntp.antt =====
-- src/ntp_utils.h: the NTP request and the checks of a reply. A packet is a list of bytes; a reply
-- has 48 of them, which the caller has checked.
pub mod Reply
use teg.Prelude.{
  ℕ, zero, suc, ◌+◌, ◌*◌, ◌/◌, ◌%◌, ◌^◌, not, ◌&&◌, ◌||◌, Option, none, some, List, [], ◌∷◌, ◌++◌,
  ltb, ◌==◌, if◌then◌else◌, get_or, replicate, drop, bit_or,
}
use teg.Prelude.Words.{sub32, u8}

abbrev pub seconds_1900_to_1970 : ℕ
seconds_1900_to_1970 = 2208988800

-- The loop from the last byte to the first: `n` bytes of the value, big-endian.
unfoldable pub write_be : ℕ → ℕ → List ℕ
write_be zero value = []
write_be (suc n) value = write_be n (value / 2 ^ 8) ++ u8 value ∷ []

unfoldable pub ntp_write_u64 : ℕ → List ℕ
ntp_write_u64 value = write_be 8 value

-- `value = (value << 8) | src[i]` on 64 bits.
unfoldable pub read_be : ℕ → ℕ → List ℕ → ℕ
read_be zero value src = value
read_be (suc n) value src =
    read_be n (bit_or (value * 2 ^ 8 % 2 ^ 64) (get_or src 0 0)) (drop 1 src)

unfoldable pub ntp_read_u64 : List ℕ → ℕ
ntp_read_u64 src = read_be 8 0 src

unfoldable pub build_ntp_request : ℕ → List ℕ
build_ntp_request token =
    0b11100011
    ∷ 0
    ∷ 6
    ∷ 0xEC
    ∷ 0
    ∷ 0
    ∷ 0
    ∷ 0
    ∷ 0
    ∷ 0
    ∷ 0
    ∷ 0
    ∷ 49
    ∷ 0x4E
    ∷ 49
    ∷ 52
    ∷ (replicate 24 0 ++ ntp_write_u64 token)

unfoldable pub parse_ntp_seconds : List ℕ → ℕ
parse_ntp_seconds packet =
    bit_or
      (bit_or (bit_or (get_or packet 40 0 * 2 ^ 24) (get_or packet 41 0 * 2 ^ 16))
        (get_or packet 42 0 * 2 ^ 8))
      (get_or packet 43 0)

unfoldable pub ntp_to_unix_epoch : ℕ → ℕ
ntp_to_unix_epoch secs = sub32 secs seconds_1900_to_1970

-- The seconds that go out, or `none` where the reply is refused. `x & 7` is `x % 8`.
unfoldable pub validate_ntp_response : List ℕ → ℕ → Option ℕ
validate_ntp_response packet token =
    let li = get_or packet 0 0 / 2 ^ 6 in
    let version = get_or packet 0 0 / 2 ^ 3 % 8 in
    let mode = get_or packet 0 0 % 8 in
    let stratum = get_or packet 1 0 in
    let seconds = parse_ntp_seconds packet in
    if li == 3
      || (not (version == 3) && not (version == 4))
      || not (mode == 4)
      || stratum == 0
      || ltb 15 stratum
      || not (ntp_read_u64 (drop 24 packet) == token)
    then none
    else if ltb seconds seconds_1900_to_1970
    then none
    else some seconds
