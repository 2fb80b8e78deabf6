-- ===== src/Ota/Verify/Accept.antt =====
-- src/ota_verify.h: `otaVerifyImage` against a description of a well-formed image.
use teg.Prelude.{
  ℕ, ◌+◌, ◌-◌, ◌/◌, ◌%◌, ◌^◌, ◌<◌, ◌≤◌, ◌≡◌, ap, ◌∙◌, ◌↔◌, Bool, true, none, bit_and, arith,
}
use teg.Prelude.Words.{IsU32, add32, sub32}
use teg.Ota.Crc.Xor.{bit_and-one}
use teg.Ota.Flash.{flash_base, image_max}
use teg.Ota.Verify.{
  Image, ota_read_u32, find_marker, verify_boot_data, verify_headers, ota_verify_image,
}
use teg.Ota.Verify.Image.{IsBytes, read_word-IsU32, HasMarker, find→HasMarker, HasMarker→find}

-- The boot data: its pointer leaves room for three words in the image, which give the base and the
-- size and no plugin flag; and the project's marker occurs in the image.
pub record HasBootData (img : Image) (size : ℕ) : Type 0 where
  pub pointer_low : flash_base ≤ ota_read_u32 img 0x1010
  pub pointer_high : ota_read_u32 img 0x1010 + 12 ≤ flash_base + size
  pub base : ota_read_u32 img (ota_read_u32 img 0x1010 - flash_base) ≡ flash_base
  pub extent : ota_read_u32 img (ota_read_u32 img 0x1010 - flash_base + 4) ≡ size
  pub no_plugin : ota_read_u32 img (ota_read_u32 img 0x1010 - flash_base + 8) ≡ 0
  pub marker : HasMarker img 0 (size - 16)

-- The headers at fixed places: the FlexSPI block of an 8 MB part, the vector table, and a Thumb entry
-- point inside the image.
pub record HasHeaders (img : Image) (size : ℕ) : Type 0 where
  pub flexspi : ota_read_u32 img 0x000 ≡ 0x42464346
  pub board : ota_read_u32 img 0x050 ≡ 0x00800000
  pub ivt_tag : bit_and (ota_read_u32 img 0x1000) 0x00FFFFFF ≡ 0x002000D1
  pub ivt_version : bit_and (ota_read_u32 img 0x1000 / 2 ^ 24) 0xF0 ≡ 0x40
  pub thumb : ota_read_u32 img 0x1004 % 2 ≡ 1
  pub entry_low : flash_base < ota_read_u32 img 0x1004
  pub entry_high : ota_read_u32 img 0x1004 ≤ flash_base + size
  pub self : ota_read_u32 img 0x1014 ≡ flash_base + 0x1000
  pub boot : HasBootData img size

-- The image as a whole: dense from the flash base on, and of a size between the headers and the buffer.
pub record IsFirmware (img : Image) (min_addr max_addr bytes : ℕ) (eof : Bool) : Type 0 where
  pub ended : eof ≡ true
  pub at_base : min_addr ≡ flash_base
  pub dense : flash_base + bytes ≡ max_addr + 1
  pub large : 0x2000 < bytes
  pub small : bytes ≤ image_max
  pub headers : HasHeaders img bytes

module _ (img : Image) (h : IsBytes img) where
  abbrev ptr : ℕ
  ptr = ota_read_u32 img 0x1010

  pointer-IsU32 : IsU32 ptr
  pointer-IsU32 = read_word-IsU32 img 0x1010 h

  boot_data→ :
      (size : ℕ)
      → 0x2000 < size
      → size ≤ image_max
      → verify_boot_data img size ≡ none
      → HasBootData img size
  unfolding verify_boot_data
  boot_data→ size lo hi e =
      let bounds : (flash_base ≤ ptr) × (ptr + 12 ≤ flash_base + size) =
        ground (arith, pointer-IsU32) in
      let sub : sub32 ptr flash_base ≡ ptr - flash_base = omega (arith, pointer-IsU32, bounds) in
      let found : find_marker (size + 1 - 17) img 0 ≡ true = ground arith in
      record {
        pointer_low = bounds.0;
        pointer_high = bounds.1;
        base = ground (arith, ap (ota_read_u32 img) sub);
        extent = ground (arith, ap (λ t. ota_read_u32 img (t + 4)) sub);
        no_plugin = ground (arith, ap (λ t. ota_read_u32 img (t + 8)) sub);
        marker =
            find→HasMarker (size - 16) img 0 (ap (λ t. find_marker t img 0) (omega arith) ∙ found);
      }

  →boot_data :
      (size : ℕ)
      → 0x2000 < size
      → size ≤ image_max
      → HasBootData img size
      → verify_boot_data img size ≡ none
  unfolding verify_boot_data
  →boot_data size lo hi b =
      let sub : sub32 ptr flash_base ≡ ptr - flash_base =
        omega (arith, pointer-IsU32, b.pointer_low) in
      let (k, low, high, at) = b.marker in
      let found : find_marker (size + 1 - 17) img 0 ≡ true =
        HasMarker→find (size + 1 - 17) img 0 k low (omega arith) at in
      ground (
        arith,
        b.base,
        b.extent,
        b.no_plugin,
        pointer-IsU32,
        ap (ota_read_u32 img) sub,
        ap (λ t. ota_read_u32 img (t + 4)) sub,
        ap (λ t. ota_read_u32 img (t + 8)) sub,
      )

  headers→ :
      (size : ℕ)
      → 0x2000 < size
      → size ≤ image_max
      → verify_headers img size ≡ none
      → HasHeaders img size
  unfolding verify_headers
  headers→ size lo hi e =
      let boot : verify_boot_data img size ≡ none = ground arith in
      let b = boot_data→ size lo hi boot in ground (arith, bit_and-one (ota_read_u32 img 0x1004))

  →headers :
      (size : ℕ)
      → 0x2000 < size
      → size ≤ image_max
      → HasHeaders img size
      → verify_headers img size ≡ none
  unfolding verify_headers
  →headers size lo hi b =
      let boot : verify_boot_data img size ≡ none = →boot_data size lo hi b.boot in
      ground (arith, bit_and-one (ota_read_u32 img 0x1004))

  -- For bytes in memory and a 32-bit end at the flash base or above, `otaVerifyImage` passes an image
  -- if and only if it is well formed.
  pub verify_iff :
      (min_addr max_addr bytes : ℕ) (eof : Bool)
      → flash_base ≤ max_addr
      → IsU32 max_addr
      → (ota_verify_image img min_addr max_addr bytes eof ≡ none)
        ↔ IsFirmware img min_addr max_addr bytes eof
  unfolding ota_verify_image
  verify_iff min_addr max_addr bytes eof low high = (accepted, passes)
    where
      size : add32 (sub32 max_addr flash_base) 1 ≡ max_addr + 1 - flash_base
      size = omega arith

      accepted :
          ota_verify_image img min_addr max_addr bytes eof ≡ none
          → IsFirmware img min_addr max_addr bytes eof
      accepted e =
          let count : bytes ≡ add32 (sub32 max_addr flash_base) 1 = ground arith in
          let large : 0x2000 < bytes = ground arith in
          let small : bytes ≤ image_max = ground arith in
          let inner : verify_headers img bytes ≡ none = rw count (ground arith) in
          record {
            ended = ground arith;
            at_base = ground arith;
            dense = omega (arith, count, size);
            large = large;
            small = small;
            headers = headers→ bytes large small inner;
          }

      passes :
          IsFirmware img min_addr max_addr bytes eof
          → ota_verify_image img min_addr max_addr bytes eof ≡ none
      passes f = ground (arith, size, →headers bytes f.large f.small f.headers)
