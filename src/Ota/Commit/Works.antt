-- ===== src/Ota/Commit/Works.antt =====
-- src/flash_ota.cpp, `otaFlashCommit`: a commit on a flash that works.
use teg.Prelude.{
  ℕ, zero, suc, ◌+◌, ◌-◌, ◌*◌, ◌/◌, ◌<◌, ◌≤◌, ◌≡◌, refl, ap, ◌∙◌, ◌⊎◌, inl, inr, ltb, if◌then◌else◌,
  Bool-cases, ltb→lt, arith,
}
use teg.Ota.Flash.{erase_sector, write, Memory, apply_op, flash_base, image_max, sector_size}
use teg.Ota.Upload.Flash.{IsByteMemory, apply_op-IsByteMemory}
use teg.Ota.Verify.{read_bytes}
use teg.Ota.Commit.{erase_if_needed, sector_not_erased, copy_pages, copy_sectors}
use teg.Ota.Commit.Copy.{IsConfined, erase_if_needed-apart}
use teg.Ota.Commit.Pages.{
  erase_if_needed-blank, filled, filled-outside, filled-inside, copy_pages-filled,
}

pub apply_op-IsConfined : IsConfined apply_op
unfolding apply_op
apply_op-IsConfined (erase_sector a) m x out = ground arith
apply_op-IsConfined (write a bytes) m x out = ground arith

pub erase_if_needed-IsByteMemory :
    (a : ℕ) (m : Memory) → IsByteMemory m → IsByteMemory (erase_if_needed apply_op a m)
unfolding erase_if_needed
erase_if_needed-IsByteMemory a m b x = elim (Bool-cases (sector_not_erased m a)) [
  | inl e ↦ rw e (apply_op-IsByteMemory (erase_sector a) m b x)
  | inr e ↦ rw e (b x)
]

filled-IsByteMemory :
    (low high : ℕ) (m : Memory) → IsByteMemory m → IsByteMemory (filled low high m)
unfolding filled
filled-IsByteMemory low high m b x = ground (arith, b x, b (x + 0x00400000))

-- One sector of the image.
module _ (off sec_len : ℕ) (m : Memory) (b : IsByteMemory m) (small : sec_len ≤ 4096)
    (fits : off + sec_len ≤ image_max) where
  abbrev erased : Memory
  erased = erase_if_needed apply_op (flash_base + off) m

  abbrev copied : Memory
  copied = copy_pages apply_op (sector_size / 256) off sec_len 0 erased

  sector-filled :
      (x : ℕ) → copied x ≡ filled (flash_base + off) (flash_base + off + sec_len) erased x
  sector-filled x =
      let start : flash_base + off + 0 ≡ flash_base + off = omega arith in
      copy_pages-filled (sector_size / 256) off sec_len 0 x erased
        (erase_if_needed-IsByteMemory (flash_base + off) m b) (omega arith) fits
        (λ y low high.
          ap erased (omega arith)
          ∙ erase_if_needed-blank (flash_base + off) (y - (flash_base + off)) m b (omega arith))
      ∙ ap (λ s. filled s (flash_base + off + sec_len) erased x) start

  sector-IsByteMemory : IsByteMemory copied
  sector-IsByteMemory x = rw (sector-filled x) (
      filled-IsByteMemory (flash_base + off) (flash_base + off + sec_len) erased
        (erase_if_needed-IsByteMemory (flash_base + off) m b) x)

  sector-apart : (x : ℕ) → (x < flash_base + off) ⊎ (flash_base + off + 4096 ≤ x) → copied x ≡ m x
  sector-apart x out =
      sector-filled x
      ∙ filled-outside (flash_base + off) (flash_base + off + sec_len) x erased (ground arith)
      ∙ erase_if_needed-apart apply_op apply_op-IsConfined (flash_base + off) x m out

  sector-copied :
      (x : ℕ)
      → flash_base + off ≤ x
      → x < flash_base + off + sec_len
      → copied x ≡ m (x + 0x00400000)
  sector-copied x low high =
      sector-filled x
      ∙ filled-inside (flash_base + off) (flash_base + off + sec_len) x erased low high
      ∙ erase_if_needed-apart apply_op apply_op-IsConfined (flash_base + off) (x + 0x00400000) m
          (inr (omega arith))

-- The sectors from `off` on: what lies below them stays, and they become the staged image.
copy_sectors-below :
    (rounds size off x : ℕ) (m : Memory)
    → IsByteMemory m
    → size ≤ image_max
    → x < flash_base + off
    → copy_sectors apply_op rounds size off m x ≡ m x
unfolding copy_sectors
copy_sectors-below zero size off x m b fits h = refl
copy_sectors-below (suc rounds) size off x m b fits h = elim (Bool-cases (ltb off size)) [
  | inr e ↦ rw e refl
  | inl e ↦
      let sec_len = if ltb (size - off) sector_size then size - off else sector_size in
      let small : sec_len ≤ 4096 = ground arith in
      let inside : off + sec_len ≤ image_max = ground (arith, ltb→lt off size e) in
      let next = copied off sec_len m b small inside in
      rw e (
        copy_sectors-below rounds size (off + sector_size) x next
          (sector-IsByteMemory off sec_len m b small inside) fits (omega arith)
        ∙ sector-apart off sec_len m b small inside x (inl h))
]

pub copy_sectors-copied :
    (rounds size off x : ℕ) (m : Memory)
    → IsByteMemory m
    → size ≤ image_max
    → size ≤ off + 4096 * rounds
    → flash_base + off ≤ x
    → x < flash_base + size
    → copy_sectors apply_op rounds size off m x ≡ m (x + 0x00400000)
unfolding copy_sectors
copy_sectors-copied zero size off x m b fits enough low high = absurd (omega arith)
copy_sectors-copied (suc rounds) size off x m b fits enough low high =
    elim (Bool-cases (ltb off size)) [
      | inr e ↦ absurd (ground (arith, e))
      | inl e ↦
          let sec_len = if ltb (size - off) sector_size then size - off else sector_size in
          let small : sec_len ≤ 4096 = ground arith in
          let inside : off + sec_len ≤ image_max = ground (arith, ltb→lt off size e) in
          let next = copied off sec_len m b small inside in
          let next-IsByte = sector-IsByteMemory off sec_len m b small inside in
          let which : (x < flash_base + off + 4096) ⊎ (flash_base + off + 4096 ≤ x) =
            ground arith in
          elim which [
            | inl here ↦ rw e (
                copy_sectors-below rounds size (off + sector_size) x next next-IsByte fits
                  (omega arith)
                ∙ sector-copied off sec_len m b small inside x low (ground arith))
            | inr later ↦ rw e (
                copy_sectors-copied rounds size (off + sector_size) x next next-IsByte fits
                  (omega arith) (omega arith) high
                ∙ sector-apart off sec_len m b small inside (x + 0x00400000) (inr (omega arith)))
          ]
    ]

pub read_bytes-moved :
    (m m' : Memory) (i j n : ℕ)
    → ((k : ℕ) → k < n → m (i + k) ≡ m' (j + k))
    → read_bytes m i n ≡ read_bytes m' j n
unfolding read_bytes
read_bytes-moved m m' i j zero same = refl
read_bytes-moved m m' i j (suc n) same =
    let first : m i ≡ m' j = ap m (omega arith) ∙ same 0 (omega arith) ∙ ap m' (omega arith) in
    let rest =
      read_bytes-moved m m' (i + 1) (j + 1) n
        (λ k lt. ap m (omega arith) ∙ same (suc k) (omega arith) ∙ ap m' (omega arith)) in
    rw (first, rest) refl

pub copy_sectors-IsByteMemory :
    (rounds size off : ℕ) (m : Memory)
    → IsByteMemory m
    → size ≤ image_max
    → IsByteMemory (copy_sectors apply_op rounds size off m)
unfolding copy_sectors
copy_sectors-IsByteMemory zero size off m b fits x = b x
copy_sectors-IsByteMemory (suc rounds) size off m b fits x = elim (Bool-cases (ltb off size)) [
  | inr e ↦ rw e (b x)
  | inl e ↦
      let sec_len = if ltb (size - off) sector_size then size - off else sector_size in
      let small : sec_len ≤ 4096 = ground arith in
      let inside : off + sec_len ≤ image_max = ground (arith, ltb→lt off size e) in
      rw e (
        copy_sectors-IsByteMemory rounds size (off + sector_size)
          (copied off sec_len m b small inside) (sector-IsByteMemory off sec_len m b small inside)
          fits x)
]
