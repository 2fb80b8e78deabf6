-- ===== src/Ota/Commit/Copy.antt =====
-- src/flash_ota.cpp, `otaFlashCommit`: what a commit leaves in the flash.
use teg.Prelude.{
  ℕ, zero, suc, ◌+◌, ◌-◌, ◌/◌, ◌%◌, ◌<◌, ◌≤◌, ◌≡◌, ◌⊎◌, inl, inr, refl, ap, sym, ◌∙◌, Bool, true,
  false, not, ltb, ◌==◌, if◌then◌else◌, length, Bool-cases, ltb→lt, ==_iff, arith,
}
use teg.Ota.Crc.{crc32}
use teg.Ota.Flash.{
  FlashOp, erase_sector, write, Memory, flash_base, buffer_base, image_max, sector_size,
}
use teg.Ota.Verify.{read_bytes}
use teg.Ota.Commit.{
  Device, copy_pages, erase_if_needed, copy_sectors, erase_base, rounds_of, attempts, wipe_from,
  wipe_start, ota_flash_commit, flash_crc,
}
use teg.Ota.Commit.Readback.{flash_crc_lem}

-- The address is not one that the operation is about.
abbrev pub Apart : FlashOp → ℕ → Type 0
Apart (erase_sector a) x = (x < a) ⊎ (a + 4096 ≤ x)
Apart (write a bytes) x = (x < a) ⊎ (a + length bytes ≤ x)

abbrev pub IsConfined : Device → Type 0
IsConfined device = (op : FlashOp) (m : Memory) (x : ℕ) → Apart op x → device op m x ≡ m x

pub length-read_bytes : (m : Memory) (i n : ℕ) → length (read_bytes m i n) ≡ n
unfolding read_bytes
length-read_bytes m i zero = refl
length-read_bytes m i (suc n) = ap suc (length-read_bytes m (i + 1) n)

-- What the attempts promise of their answer: the CRC of a copy that matched, and the staged image.
abbrev Kept : ℕ → ℕ → Memory → Bool × Memory → Type 0
Kept size expected m answer =
    (answer.0 ≡ true → crc32 (read_bytes answer.1 flash_base size) ≡ expected)
    × ((x : ℕ) → flash_base + image_max ≤ x → answer.1 x ≡ m x)

Kept-if :
    (size expected : ℕ) (m : Memory) (b : Bool) (p q : Bool × Memory)
    → (b ≡ true → Kept size expected m p)
    → Kept size expected m q
    → Kept size expected m (if b then p else q)
Kept-if size expected m true p q hp hq = hp refl
Kept-if size expected m false p q hp hq = hq

-- The byte of a memory that a test chooses.
if_ltb-at :
    (a b : ℕ) (f g : Memory) (x v : ℕ)
    → (a < b → f x ≡ v)
    → g x ≡ v
    → (if ltb a b then f else g) x ≡ v
if_ltb-at a b f g x v there here = elim (Bool-cases (ltb a b)) [
  | inl e ↦ rw e (there (ltb→lt a b e))
  | inr e ↦ rw e here
]

module _ (device : Device) (confined : IsConfined device) where
  pub erase_if_needed-apart :
      (a x : ℕ) (m : Memory) → (x < a) ⊎ (a + 4096 ≤ x) → erase_if_needed device a m x ≡ m x
  unfolding erase_if_needed
  erase_if_needed-apart a x m out = ground (arith, confined (erase_sector a) m x out)

  copy_pages-apart :
      (rounds off sec_len p x : ℕ) (m : Memory)
      → flash_base + off + sec_len ≤ x
      → copy_pages device rounds off sec_len p m x ≡ m x
  unfolding copy_pages
  copy_pages-apart zero off sec_len p x m h = refl
  copy_pages-apart (suc rounds) off sec_len p x m h =
      let n = if ltb (sec_len - p) 256 then sec_len - p else 256 in
      let page = read_bytes m (buffer_base + off + p) n in
      let next = device (write (flash_base + off + p) page) m in
      if_ltb-at p sec_len _ m x (m x)
        (λ inside.
          copy_pages-apart rounds off sec_len (p + 256) x next h
          ∙ confined (write (flash_base + off + p) page) m x
              (inr (ground (arith, length-read_bytes m (buffer_base + off + p) n))))
        refl

  pub copy_sectors-apart :
      (rounds size off x : ℕ) (m : Memory)
      → off % 4096 ≡ 0
      → size ≤ image_max
      → flash_base + image_max ≤ x
      → copy_sectors device rounds size off m x ≡ m x
  unfolding copy_sectors
  copy_sectors-apart zero size off x m aligned small h = refl
  copy_sectors-apart (suc rounds) size off x m aligned small h =
      let remain = size - off in
      let sec_len = if ltb remain sector_size then remain else sector_size in
      let erased = erase_if_needed device (flash_base + off) m in
      let copied = copy_pages device (sector_size / 256) off sec_len 0 erased in
      if_ltb-at off size _ m x (m x)
        (λ inside.
          copy_sectors-apart rounds size (off + sector_size) x copied (omega arith) small h
          ∙ copy_pages-apart (sector_size / 256) off sec_len 0 x erased (ground arith)
          ∙ erase_if_needed-apart (flash_base + off) x m (inr (omega arith)))
        refl

  erase_base-apart :
      (rounds size off x : ℕ) (m : Memory)
      → off % 4096 ≡ 0
      → size ≤ image_max
      → flash_base + image_max ≤ x
      → erase_base device rounds size off m x ≡ m x
  unfolding erase_base
  erase_base-apart zero size off x m aligned small h = refl
  erase_base-apart (suc rounds) size off x m aligned small h =
      let next = device (erase_sector (flash_base + off)) m in
      if_ltb-at off size _ m x (m x)
        (λ inside.
          erase_base-apart rounds size (off + sector_size) x next (omega arith) small h
          ∙ confined (erase_sector (flash_base + off)) m x (inr (omega arith)))
        refl

  pub wipe_from-apart : (rounds a x : ℕ) (m : Memory) → x < a → wipe_from device rounds a m x ≡ m x
  unfolding wipe_from
  wipe_from-apart zero a x m h = refl
  wipe_from-apart (suc rounds) a x m h =
      if_ltb-at a 0x607C0000 _ m x (m x)
        (λ inside.
          wipe_from-apart rounds (a + sector_size) x (erase_if_needed device a m) (omega arith)
          ∙ erase_if_needed-apart a x m (inl h))
        refl

  wiped-apart :
      (left size x : ℕ) (m : Memory)
      → size ≤ image_max
      → flash_base + image_max ≤ x
      → (if left == 0 then m else erase_base device (rounds_of device size) size 0 m) x ≡ m x
  wiped-apart left size x m small h =
      ground (arith, erase_base-apart (rounds_of device size) size 0 x m refl small h)

  -- The attempts end with the expected CRC or report that they did not; the staged image stays.
  attempts-Kept :
      (left size expected : ℕ) (m : Memory)
      → size ≤ image_max
      → Kept size expected m (attempts device left size expected m)
  unfolding attempts
  attempts-Kept zero size expected m small = (λ h. absurd (ground arith), λ x h. refl)
  attempts-Kept (suc left) size expected m small =
      let copied = copy_sectors device (rounds_of device size) size 0 m in
      let wiped =
        if left == 0 then copied else erase_base device (rounds_of device size) size 0 copied in
      let same : (x : ℕ) → flash_base + image_max ≤ x → copied x ≡ m x =
        λ x h. copy_sectors-apart (rounds_of device size) size 0 x m refl small h in
      let (good, kept) = attempts-Kept left size expected wiped small in
      Kept-if size expected m (flash_crc copied flash_base size == expected) (true, copied)
        (attempts device left size expected wiped)
        (λ match. (
          λ _.
              sym (flash_crc_lem copied flash_base size)
              ∙ (==_iff (flash_crc copied flash_base size) expected).0 match,
          same,
        ))
        (good, λ x h. kept x h ∙ wiped-apart left size x copied small h ∙ same x h)

pub read_bytes-same :
    (m m' : Memory) (i n : ℕ)
    → ((x : ℕ) → i ≤ x → x < i + n → m x ≡ m' x)
    → read_bytes m i n ≡ read_bytes m' i n
unfolding read_bytes
read_bytes-same m m' i zero same = refl
read_bytes-same m m' i (suc n) same =
    rw
      (
        same i (omega arith) (omega arith),
        read_bytes-same m m' (i + 1) n (λ x low high. same x (omega arith) (omega arith)),
      )
      refl

-- What a commit leaves, at one address of the staging buffer.
abbrev pub Committed : ℕ → ℕ → Memory → ℕ → Bool × Memory → Type 0
Committed size expected m x answer =
    ((answer.0 ≡ true) × (crc32 (read_bytes answer.1 flash_base size) ≡ expected))
    ⊎ ((answer.0 ≡ false) × (answer.1 x ≡ m x))

commit-Kept :
    (device : Device)
    → IsConfined device
    → (size expected : ℕ) (m : Memory) (x : ℕ) → buffer_base ≤ x
    → (copied : Bool) (flash : Memory) → Kept size expected m (copied, flash)
    → let end = wipe_from device (0x007C0000 / sector_size) (wipe_start device size) flash in
      let answer : Bool × Memory = if not copied then (false, flash) else (true, end) in
      Committed size expected m x answer
commit-Kept device confined size expected m x staged true flash (good, kept) = inl (
  refl,
  ap crc32 (
        read_bytes-same _ flash flash_base size (λ y low high.
          wipe_from-apart device confined (0x007C0000 / sector_size) (wipe_start device size) y
            flash (omega arith)))
      ∙ good refl,
)
commit-Kept device confined size expected m x staged false flash (good, kept) =
    inr (refl, kept x (omega arith))

-- On a device that changes no byte but those an operation names, however badly it writes and erases
-- these: a commit of an image that fits the buffer either resets the board with the image in place
-- whose CRC-32 is the expected one, or returns and has left every byte from the staging buffer on
-- as it was.
pub commit-Committed :
    (device : Device)
    → IsConfined device
    → (size expected : ℕ) (m : Memory) (x : ℕ) → size ≤ image_max
    → buffer_base ≤ x
    → Committed size expected m x (ota_flash_commit device size expected m)
unfolding ota_flash_commit
commit-Committed device confined size expected m x small staged =
    let (copied, flash) = attempts device 3 size expected m in
    commit-Kept device confined size expected m x staged copied flash
      (attempts-Kept device confined 3 size expected m small)
