-- ===== src/Wave.antt =====
-- src/waveform_parse.h: the header of a binary waveform, the end of a parse and the playback time of
-- a segment. The text lines go through `strtof` of the C library and are not modelled.
use teg.Prelude.{
  ℕ, ◌+◌, ◌*◌, ◌/◌, ◌^◌, ◌<◌, ◌≤◌, ◌≡◌, ◌↔◌, ◌⊎◌, not, ◌&&◌, ◌||◌, List, [], ◌∷◌, ltb, ◌==◌,
  if◌then◌else◌, get_or, bit_or, arith,
}
use teg.Prelude.Words.{u8, u32}
use teg.Prelude.Bits.{word_le}

abbrev pub wave_type_reference : ℕ
wave_type_reference = 1

abbrev pub wave_type_sequence : ℕ
wave_type_sequence = 2

abbrev pub max_stream_samples : ℕ
max_stream_samples = 2 ^ 29

abbrev pub max_wave_segments : ℕ
max_wave_segments = 64

pub data WaveError : Type 0 where
  no_type too_few bad_binary : WaveError

pub data WaveResult {ℓ} (A : Type ℓ) : Type ℓ where
  parsed : A → WaveResult A
  refused : WaveError → WaveResult A

-- The count of a finished parse of the given type.
unfoldable pub wave_parse_finish : ℕ → ℕ → WaveResult ℕ
wave_parse_finish type_code count =
    if type_code == 0
    then refused no_type
    else if (type_code == wave_type_reference && ltb count 2)
        || (type_code == wave_type_sequence && ltb count 1)
    then refused too_few
    else parsed count

unfoldable pub wave_binary_header_write : ℕ → ℕ → List ℕ
wave_binary_header_write type_code count =
    b'T'
    ∷ b'E'
    ∷ b'G'
    ∷ b'W'
    ∷ 1
    ∷ type_code
    ∷ 0
    ∷ 0
    ∷ u8 count
    ∷ u8 (count / 2 ^ 8)
    ∷ u8 (count / 2 ^ 16)
    ∷ u8 (count / 2 ^ 24)
    ∷ []

-- The type that goes out and the count.
unfoldable pub wave_binary_header_read : List ℕ → WaveResult (ℕ × ℕ)
wave_binary_header_read bytes =
    let at = λ (i : ℕ). get_or bytes i 0 in
    let type_code = at 5 in
    let count = bit_or (bit_or (bit_or (at 8) (at 9 * 2 ^ 8)) (at 10 * 2 ^ 16)) (at 11 * 2 ^ 24) in
    if not (at 0 == b'T')
      || not (at 1 == b'E')
      || not (at 2 == b'G')
      || not (at 3 == b'W')
      || not (at 4 == 1)
    then refused bad_binary
    else if type_code == wave_type_reference
    then (if ltb count 2 || ltb max_stream_samples count
        then refused bad_binary
        else parsed (type_code, count))
    else if type_code == wave_type_sequence
    then (if ltb count 1 || ltb max_wave_segments count
        then refused bad_binary
        else parsed (type_code, count))
    else refused bad_binary

unfoldable pub micros_to_cycles : ℕ → ℕ → ℕ
micros_to_cycles micros carrier_hz =
    let cycles = (micros * carrier_hz + 500000) / 1000000 in
    if cycles == 0 then 1 else if ltb 0xFFFFFFFF cycles then 0xFFFFFFFF else u32 cycles

-- The waveforms whose header is valid.
pub IsWave : ℕ → ℕ → Type 0
IsWave type_code count =
    ((type_code ≡ 1) × (2 ≤ count) × (count ≤ 2 ^ 29))
    ⊎ ((type_code ≡ 2) × (1 ≤ count) × (count ≤ 64))

count_bytes :
    (count : ℕ)
    → count < 2 ^ 32
    → bit_or
        (bit_or (bit_or (u8 count) (u8 (count / 2 ^ 8) * 2 ^ 8)) (u8 (count / 2 ^ 16) * 2 ^ 16))
        (u8 (count / 2 ^ 24) * 2 ^ 24)
      ≡ count
count_bytes count h = omega (
  arith,
  word_le (u8 count) (u8 (count / 2 ^ 8)) (u8 (count / 2 ^ 16)) (u8 (count / 2 ^ 24)) (omega arith)
      (omega arith) (omega arith) (omega arith),
)

-- A header that was written with a 32-bit count is read back as the type and the count that went in, exactly where
-- these are a reference of 2 to 2^29 samples or a sequence of 1 to 64 segments.
pub read-write_header :
    (type_code count : ℕ)
    → count < 2 ^ 32
    → wave_binary_header_read (wave_binary_header_write type_code count) ≡ parsed (type_code, count)
      ↔ IsWave type_code count
unfolding wave_binary_header_read wave_binary_header_write IsWave
read-write_header type_code count h = ground (arith, count_bytes count h)

-- The cycles of a segment are at least one, and the nearest number to its duration at the carrier's
-- frequency wherever that is at least one and fits 32 bits.
pub micros_to_cycles-nearest :
    (micros carrier_hz : ℕ)
    → 500000 ≤ micros * carrier_hz
    → micros * carrier_hz < 4294967295 * 1000000
    → let cycles = micros_to_cycles micros carrier_hz in
      (1 ≤ cycles)
      × (cycles * 1000000 ≤ micros * carrier_hz + 500000)
      × (micros * carrier_hz < cycles * 1000000 + 500000)
unfolding micros_to_cycles
micros_to_cycles-nearest micros carrier_hz low high = ground arith
