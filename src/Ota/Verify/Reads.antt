-- ===== src/Ota/Verify/Reads.antt =====
-- src/ota_verify.h: what the checks read of the memory.
use teg.Prelude.{ℕ, zero, suc, ◌+◌, ◌-◌, ◌<◌, ◌≤◌, ◌≡◌, refl, Bool, List, [], ◌∷◌, length, arith}
use teg.Prelude.Words.{IsU32, add32, sub32}
use teg.Ota.Flash.{flash_base, image_max}
use teg.Ota.Verify.{
  Image, ota_read_u32, project_marker, matches_at, find_marker, verify_boot_data, verify_headers,
  ota_verify_image,
}
use teg.Ota.Verify.Image.{IsBytes, read_word-IsU32}

module _ (img img' : Image) (size : ℕ) (same : (i : ℕ) → i < size → img i ≡ img' i) where
  read_same : (off : ℕ) → off + 3 < size → ota_read_u32 img off ≡ ota_read_u32 img' off
  unfolding ota_read_u32
  read_same off h = rw (
    same off (omega arith),
    same (off + 1) (omega arith),
    same (off + 2) (omega arith),
    same (off + 3) h,
  )

  matches_same :
      (i : ℕ) (cs : List ℕ) → i + length cs ≤ size → matches_at img i cs ≡ matches_at img' i cs
  unfolding matches_at
  matches_same i [] h = refl
  matches_same i (c ∷ cs) h = rw (same i (omega arith), matches_same (i + 1) cs (omega arith))

  find_same : (n i : ℕ) → n + i + 16 ≤ size → find_marker n img i ≡ find_marker n img' i
  unfolding find_marker
  find_same zero i h = refl
  find_same (suc n) i h =
      rw (matches_same i project_marker (omega arith), find_same n (i + 1) (omega arith))

  boot_same :
      IsBytes img'
      → 0x2000 < size
      → size ≤ image_max
      → verify_boot_data img size ≡ verify_boot_data img' size
  unfolding verify_boot_data
  boot_same b lo hi = rw (read_same 0x1010 (omega arith)) (
      ground (
        arith,
        read_word-IsU32 img' 0x1010 b,
        read_same (sub32 (ota_read_u32 img' 0x1010) flash_base),
        read_same (sub32 (ota_read_u32 img' 0x1010) flash_base + 4),
        read_same (sub32 (ota_read_u32 img' 0x1010) flash_base + 8),
        find_same (size + 1 - 17) 0 (omega arith),
      ))

  headers_same :
      IsBytes img'
      → 0x2000 < size
      → size ≤ image_max
      → verify_headers img size ≡ verify_headers img' size
  unfolding verify_headers
  headers_same b lo hi = rw (
    read_same 0x000 (omega arith),
    read_same 0x050 (omega arith),
    read_same 0x1000 (omega arith),
    read_same 0x1004 (omega arith),
    read_same 0x1014 (omega arith),
    boot_same b lo hi,
  )

-- `otaVerifyImage` reads only offsets below the image's size.
pub verify_same :
    (img img' : Image) (min_addr max_addr bytes : ℕ) (eof : Bool)
    → IsBytes img'
    → flash_base ≤ max_addr
    → IsU32 max_addr
    → ((i : ℕ) → i < max_addr + 1 - flash_base → img i ≡ img' i)
    → ota_verify_image img min_addr max_addr bytes eof
      ≡ ota_verify_image img' min_addr max_addr bytes eof
unfolding ota_verify_image
verify_same img img' min_addr max_addr bytes eof b low high same =
    let size : add32 (sub32 max_addr flash_base) 1 ≡ max_addr + 1 - flash_base = omega arith in
    rw size (ground (arith, headers_same img img' (max_addr + 1 - flash_base) same b))
