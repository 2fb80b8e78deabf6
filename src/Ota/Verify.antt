-- ===== src/Ota/Verify.antt =====
-- src/ota_verify.h: the checks of a staged image before it is committed. `img` is a function from
-- offsets to bytes: on the target it is the memory-mapped staging buffer.
pub mod Image
pub mod Accept
pub mod Reads
use teg.Prelude.{
  ℕ, zero, suc, ◌+◌, ◌-◌, ◌*◌, ◌/◌, ◌^◌, Bool, true, false, not, ◌&&◌, ◌||◌, Option, none, some,
  List, [], ◌∷◌, ltb, leb, ◌==◌, if◌then◌else◌, length, bit_and, bit_or,
}
use teg.Prelude.Words.{add32, sub32}
use teg.Ota.Crc.{crc32}
use teg.Ota.Flash.{flash_base, image_max}

pub data VerifyError : Type 0 where
  no_eof wrong_base too_small exceeds_buffer has_gaps no_flexspi wrong_board : VerifyError
  no_ivt not_thumb entry_outside ivt_self boot_data_outside boot_start boot_length : VerifyError
  boot_plugin no_marker bad_crc : VerifyError

abbrev pub Image : Type 0
Image = ℕ → ℕ

unfoldable pub ota_read_u32 : Image → ℕ → ℕ
ota_read_u32 img off =
    bit_or (bit_or (bit_or (img off) (img (off + 1) * 2 ^ 8)) (img (off + 2) * 2 ^ 16))
      (img (off + 3) * 2 ^ 24)

-- "teg-inverter-fw:1"
abbrev pub project_marker : List ℕ
project_marker =
    b't' ∷ b'e' ∷ b'g' ∷ b'-' ∷ b'i' ∷ b'n' ∷ b'v' ∷ b'e' ∷ b'r' ∷ b't' ∷ b'e' ∷ b'r' ∷ b'-' ∷ b'f'
    ∷ b'w' ∷ b':' ∷ b'1' ∷ []

-- `memcmp(img + i, marker, mlen) == 0`
unfoldable pub matches_at : Image → ℕ → List ℕ → Bool
matches_at img i [] = true
matches_at img i (c ∷ cs) = img i == c && matches_at img (i + 1) cs

-- The search loop at `i`, with the rounds left first; it stops at the first match.
unfoldable pub find_marker : ℕ → Image → ℕ → Bool
find_marker zero img i = false
find_marker (suc n) img i =
    let later = find_marker n img (i + 1) in if matches_at img i project_marker then true else later

-- The checks of the boot data and of the marker, behind those of the vector table.
unfoldable pub verify_boot_data : Image → ℕ → Option VerifyError
verify_boot_data img image_size =
    let boot_data_ptr = ota_read_u32 img 0x1010 in
    let bd = sub32 boot_data_ptr flash_base in
    if ltb boot_data_ptr flash_base || ltb (sub32 image_size 12) (sub32 boot_data_ptr flash_base)
    then some boot_data_outside
    else if not (ota_read_u32 img bd == flash_base)
    then some boot_start
    else if not (ota_read_u32 img (bd + 4) == image_size)
    then some boot_length
    else if not (ota_read_u32 img (bd + 8) == 0)
    then some boot_plugin
    else if not (find_marker (image_size + 1 - length project_marker) img 0)
    then some no_marker
    else none

-- The checks of the headers at fixed offsets; `entry & ~1u` is `entry / 2 * 2`.
unfoldable pub verify_headers : Image → ℕ → Option VerifyError
verify_headers img image_size =
    let ivt = ota_read_u32 img 0x1000 in
    let entry = ota_read_u32 img 0x1004 in
    if not (ota_read_u32 img 0x000 == 0x42464346)
    then some no_flexspi
    else if not (ota_read_u32 img 0x050 == 0x00800000)
    then some wrong_board
    else if not (bit_and ivt 0x00FFFFFF == 0x002000D1) || not (bit_and (ivt / 2 ^ 24) 0xF0 == 0x40)
    then some no_ivt
    else if bit_and entry 1 == 0
    then some not_thumb
    else if ltb (entry / 2 * 2) flash_base || leb (add32 flash_base image_size) (entry / 2 * 2)
    then some entry_outside
    else if not (ota_read_u32 img 0x1014 == flash_base + 0x1000)
    then some ivt_self
    else verify_boot_data img image_size

-- `none` is the source's null pointer: the image passes.
unfoldable pub ota_verify_image : Image → ℕ → ℕ → ℕ → Bool → Option VerifyError
ota_verify_image img min_addr max_addr bytes_written eof_seen =
    let image_size = add32 (sub32 max_addr flash_base) 1 in
    if not eof_seen
    then some no_eof
    else if not (min_addr == flash_base)
    then some wrong_base
    else if leb image_size 0x2000
    then some too_small
    else if ltb image_max image_size
    then some exceeds_buffer
    else if not (bytes_written == image_size)
    then some has_gaps
    else verify_headers img image_size

-- The first `n` bytes from `i` on.
unfoldable pub read_bytes : Image → ℕ → ℕ → List ℕ
read_bytes img i zero = []
read_bytes img i (suc n) = img i ∷ read_bytes img (i + 1) n

unfoldable pub ota_verify_staged_crc : Image → ℕ → ℕ → Option VerifyError
ota_verify_staged_crc img image_size expected =
    if crc32 (read_bytes img 0 image_size) == expected then none else some bad_crc
