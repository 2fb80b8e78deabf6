-- ===== src/Ota/Commit/Installed.antt =====
-- src/flash_ota.cpp, `otaFlashCommit`: what a commit on a flash that works installs.
use teg.Prelude.{
  ℕ, zero, suc, ◌+◌, ◌-◌, ◌*◌, ◌/◌, ◌%◌, ◌<◌, ◌≤◌, ◌≡◌, refl, ap, ◌∙◌, ◌⊎◌, inl, inr, Bool, true,
  ltb, ◌==◌, Bool-cases, ==_iff, arith,
}
use teg.Ota.Crc.{crc32}
use teg.Ota.Flash.{Memory, apply_op, flash_base, buffer_base, image_max, sector_size}
use teg.Ota.Upload.Flash.{IsByteMemory}
use teg.Ota.Verify.{read_bytes}
use teg.Ota.Commit.{
  erase_if_needed, copy_sectors, rounds_of, attempts, wipe_from, wipe_start, ota_flash_commit,
  flash_crc,
}
use teg.Ota.Commit.Readback.{flash_crc_lem}
use teg.Ota.Commit.Copy.{erase_if_needed-apart, wipe_from-apart, copy_sectors-apart}
use teg.Ota.Commit.Pages.{erase_if_needed-blank}
use teg.Ota.Commit.Works.{
  apply_op-IsConfined, erase_if_needed-IsByteMemory, copy_sectors-IsByteMemory, copy_sectors-copied,
  read_bytes-moved,
}

-- The wipe leaves every sector below the emulated EEPROM blank.
wipe_from-blank :
    (rounds a x : ℕ) (m : Memory)
    → IsByteMemory m
    → 0x607C0000 ≤ a + 4096 * rounds
    → a ≤ x
    → x < 0x607C0000
    → wipe_from apply_op rounds a m x ≡ 255
unfolding wipe_from
wipe_from-blank zero a x m b enough low high = absurd (omega arith)
wipe_from-blank (suc rounds) a x m b enough low high =
    let next = erase_if_needed apply_op a m in
    let goes_on : ltb a 0x607C0000 ≡ true = ground arith in
    let which : (x < a + 4096) ⊎ (a + 4096 ≤ x) = ground arith in
    elim which [
      | inl here ↦ rw goes_on (
          wipe_from-apart apply_op apply_op-IsConfined rounds (a + sector_size) x next here
          ∙ ap next (omega arith)
          ∙ erase_if_needed-blank a (x - a) m b (omega arith))
      | inr later ↦ rw goes_on (
          wipe_from-blank rounds (a + sector_size) x next (erase_if_needed-IsByteMemory a m b)
            (omega arith) later high)
    ]

-- The wipe does not reach the emulated EEPROM.
wipe_from-above :
    (rounds a x : ℕ) (m : Memory)
    → a % 4096 ≡ 0
    → 0x607C0000 ≤ x
    → wipe_from apply_op rounds a m x ≡ m x
unfolding wipe_from
wipe_from-above zero a x m aligned h = refl
wipe_from-above (suc rounds) a x m aligned h = elim (Bool-cases (ltb a 0x607C0000)) [
  | inr e ↦ rw e refl
  | inl e ↦ rw e (
      wipe_from-above rounds (a + sector_size) x (erase_if_needed apply_op a m) (omega arith) h
      ∙ erase_if_needed-apart apply_op apply_op-IsConfined a x m (inr (ground (arith, e))))
]

-- The image in place, the rest of the program flash blank, and the emulated EEPROM as it was.
pub record IsInstalled (size : ℕ) (m : Memory) (answer : Bool × Memory) : Type 0 where
  pub resets : answer.0 ≡ true
  pub image : (i : ℕ) → i < size → answer.1 (flash_base + i) ≡ m (buffer_base + i)
  pub blank : (x : ℕ) → flash_base + size + 4095 ≤ x → x < 0x607C0000 → answer.1 x ≡ 255
  pub kept : (x : ℕ) → 0x607C0000 ≤ x → answer.1 x ≡ m x

module _ (size : ℕ) (m : Memory) (b : IsByteMemory m) (fits : size ≤ image_max) where
  abbrev copied : Memory
  copied = copy_sectors apply_op (rounds_of apply_op size) size 0 m

  copied-image : (i : ℕ) → i < size → copied (flash_base + i) ≡ m (buffer_base + i)
  copied-image i lt =
      copy_sectors-copied (rounds_of apply_op size) size 0 (flash_base + i) m b fits (omega arith)
        (omega arith) (omega arith)
      ∙ ap m (omega arith)

  copied-crc : flash_crc copied flash_base size ≡ crc32 (read_bytes m buffer_base size)
  copied-crc =
      flash_crc_lem copied flash_base size
      ∙ ap crc32 (read_bytes-moved copied m flash_base buffer_base size copied-image)

  -- The first attempt matches.
  first-attempt :
      attempts apply_op 3 size (crc32 (read_bytes m buffer_base size)) m ≡ (true, copied)
  unfolding attempts
  first-attempt =
      let match : (flash_crc copied flash_base size == crc32 (read_bytes m buffer_base size))
          ≡ true =
        (==_iff (flash_crc copied flash_base size) (crc32 (read_bytes m buffer_base size))).1
          copied-crc in
      rw match refl

  abbrev wiped : Memory
  wiped = wipe_from apply_op (0x007C0000 / sector_size) (wipe_start apply_op size) copied

  wiped-IsInstalled : IsInstalled size m (true, wiped)
  wiped-IsInstalled = record {
    resets = refl;
    image = λ i lt.
        wipe_from-apart apply_op apply_op-IsConfined (0x007C0000 / sector_size)
          (wipe_start apply_op size) (flash_base + i) copied (omega arith)
        ∙ copied-image i lt;
    blank = λ x low high.
        wipe_from-blank (0x007C0000 / sector_size) (wipe_start apply_op size) x copied
          (copy_sectors-IsByteMemory (rounds_of apply_op size) size 0 m b fits) (omega arith)
          (omega arith) high;
    kept = λ x h.
        wipe_from-above (0x007C0000 / sector_size) (wipe_start apply_op size) x copied (omega arith)
          h
        ∙ copy_sectors-apart apply_op apply_op-IsConfined (rounds_of apply_op size) size 0 x m refl
            fits (omega arith);
  }

  -- On a flash that works, a commit of the staged image with its CRC resets the board with the image
  -- installed: its bytes are the staged ones, the flash behind its last sector is blank up to the
  -- emulated EEPROM, and that is as it was. The image fits the buffer, and the flash holds bytes.
  pub commit-IsInstalled :
      IsInstalled size m (ota_flash_commit apply_op size (crc32 (read_bytes m buffer_base size)) m)
  unfolding ota_flash_commit
  commit-IsInstalled = rw first-attempt wiped-IsInstalled
