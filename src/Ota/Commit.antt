-- ===== src/Ota/Commit.antt =====
-- src/flash_ota.cpp: the flash access that the update uses, and the copy of the staged image over
-- the running one. The core's two flash primitives are not in the repository: `device` says what an
-- operation makes of the flash, whatever that is. Loops count down the rounds that they have left.
pub mod Readback
pub mod Copy
pub mod Pages
pub mod Works
pub mod Installed
use teg.Prelude.{
  ℕ, zero, suc, ◌+◌, ◌-◌, ◌*◌, ◌/◌, Bool, true, false, not, List, [], ◌∷◌, ltb, ◌==◌, if◌then◌else◌,
  length, take, drop, bit_xor, ◌%◌,
}
use teg.Ota.Crc.{crc32_update}
use teg.Ota.Flash.{FlashOp, erase_sector, write, Memory, flash_base, buffer_base, sector_size}
use teg.Ota.Verify.{ota_read_u32, read_bytes}

abbrev pub Device : Type 0
Device = FlashOp → Memory → Memory

-- The operations of a write, split at the 256-byte pages; a round writes a byte or more.
unfoldable pub ota_flash_write_hw : ℕ → ℕ → List ℕ → List FlashOp
ota_flash_write_hw zero addr bytes = []
ota_flash_write_hw (suc rounds) addr bytes =
    let space = 256 - addr % 256 in
    let n = if ltb (length bytes) space then length bytes else space in
    let rest = ota_flash_write_hw rounds (addr + n) (drop n bytes) in
    if length bytes == 0 then [] else write addr (take n bytes) ∷ rest

-- The loop over the sector's words, at the word `addr`.
unfoldable pub words_not_erased : ℕ → Memory → ℕ → Bool
words_not_erased zero m addr = false
words_not_erased (suc rounds) m addr =
    let rest = words_not_erased rounds m (addr + 4) in
    if not (ota_read_u32 m addr == 0xFFFFFFFF) then true else rest

unfoldable pub sector_not_erased : Memory → ℕ → Bool
sector_not_erased m addr = words_not_erased (sector_size / 4) m addr

unfoldable pub crc_chunks : ℕ → Memory → ℕ → ℕ → ℕ → ℕ → ℕ
crc_chunks zero m addr len off crc = crc
crc_chunks (suc rounds) m addr len off crc =
    let n = if ltb (len - off) 256 then len - off else 256 in
    let rest =
      crc_chunks rounds m addr len (off + 256) (crc32_update crc (read_bytes m (addr + off) n)) in
    if ltb off len then rest else crc

unfoldable pub flash_crc : Memory → ℕ → ℕ → ℕ
flash_crc m addr len = bit_xor (crc_chunks (len / 256 + 1) m addr len 0 0xFFFFFFFF) 0xFFFFFFFF

module _ (device : Device) where
  -- The pages of the sector at `off`, from the offset `p` in it.
  unfoldable pub copy_pages : ℕ → ℕ → ℕ → ℕ → Memory → Memory
  copy_pages zero off sec_len p m = m
  copy_pages (suc rounds) off sec_len p m =
      let n = if ltb (sec_len - p) 256 then sec_len - p else 256 in
      let page = read_bytes m (buffer_base + off + p) n in
      let rest =
        copy_pages rounds off sec_len (p + 256) (device (write (flash_base + off + p) page) m) in
      if ltb p sec_len then rest else m

  unfoldable pub erase_if_needed : ℕ → Memory → Memory
  erase_if_needed addr m = if sector_not_erased m addr then device (erase_sector addr) m else m

  -- The sectors of the image, from the offset `off`.
  unfoldable pub copy_sectors : ℕ → ℕ → ℕ → Memory → Memory
  copy_sectors zero image_size off m = m
  copy_sectors (suc rounds) image_size off m =
      let remain = image_size - off in
      let sec_len = if ltb remain sector_size then remain else sector_size in
      let copied =
        copy_pages (sector_size / 256) off sec_len 0 (erase_if_needed (flash_base + off) m) in
      let rest = copy_sectors rounds image_size (off + sector_size) copied in
      if ltb off image_size then rest else m

  -- The wipe between two attempts.
  unfoldable pub erase_base : ℕ → ℕ → ℕ → Memory → Memory
  erase_base zero image_size off m = m
  erase_base (suc rounds) image_size off m =
      let rest =
        erase_base rounds image_size (off + sector_size)
          (device (erase_sector (flash_base + off)) m) in
      if ltb off image_size then rest else m

  abbrev pub rounds_of : ℕ → ℕ
  rounds_of image_size = image_size / sector_size + 1

  -- The attempts that are left: whether one of them matched, and the flash after it.
  unfoldable pub attempts : ℕ → ℕ → ℕ → Memory → Bool × Memory
  attempts zero image_size expected_crc m = (false, m)
  attempts (suc left) image_size expected_crc m =
      let copied = copy_sectors (rounds_of image_size) image_size 0 m in
      let wiped =
        if left == 0 then copied else erase_base (rounds_of image_size) image_size 0 copied in
      let again = attempts left image_size expected_crc wiped in
      if flash_crc copied flash_base image_size == expected_crc then (true, copied) else again

  unfoldable pub wipe_from : ℕ → ℕ → Memory → Memory
  wipe_from zero a m = m
  wipe_from (suc rounds) a m =
      let rest = wipe_from rounds (a + sector_size) (erase_if_needed a m) in
      if ltb a 0x607C0000 then rest else m

  -- `x & ~(OtaSectorSize - 1)` is `x / sector_size * sector_size`.
  abbrev pub wipe_start : ℕ → ℕ
  wipe_start image_size = (flash_base + image_size + sector_size - 1) / sector_size * sector_size

  -- `true` where the board is reset, which the source does not return from, and `false` where it
  -- runs on.
  unfoldable pub ota_flash_commit : ℕ → ℕ → Memory → Bool × Memory
  ota_flash_commit image_size expected_crc m =
      let (copied, flash) = attempts 3 image_size expected_crc m in
      if not copied
      then (false, flash)
      else (true, wipe_from (0x007C0000 / sector_size) (wipe_start image_size) flash)
