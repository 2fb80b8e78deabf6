-- ===== src/Ota/Crc.antt =====
-- src/ota_crc.h: the table-free CRC-32 of the update path. `data` with `len` is a list of bytes, and
-- the 32-bit register a number.
pub mod Xor
pub mod Detect
use teg.Prelude.{ℕ, zero, suc, ◌+◌, ◌-◌, ◌/◌, List, [], ◌∷◌, bit_and, bit_xor}
use teg.Prelude.Words.{u32}

-- One round of the inner loop; `~(crc & 1u) + 1u` is all ones where the low bit is set, else 0.
unfoldable pub crc_bit : ℕ → ℕ
crc_bit crc = bit_xor (crc / 2) (bit_and 0xEDB88320 (u32 (0xFFFFFFFF - bit_and crc 1 + 1)))

unfoldable pub crc_bits : ℕ → ℕ → ℕ
unfolding crc_bit
crc_bits zero crc = crc
crc_bits (suc n) crc = crc_bits n (crc_bit crc)

unfoldable pub crc32_update : ℕ → List ℕ → ℕ
unfolding crc_bits
crc32_update crc [] = crc
crc32_update crc (b ∷ bs) = crc32_update (crc_bits 8 (bit_xor crc b)) bs

unfoldable pub crc32 : List ℕ → ℕ
unfolding crc32_update
crc32 bytes = bit_xor (crc32_update 0xFFFFFFFF bytes) 0xFFFFFFFF
