-- ===== src/Ota/Ingest/Record.antt =====
-- src/ota_ingest.h, `otaHandleData`: one data record.
use teg.Prelude.{
  ℕ, zero, suc, ◌+◌, ◌-◌, ◌/◌, ◌<◌, ◌≤◌, ◌≡◌, refl, ap, sym, ◌∙◌, ◌⊎◌, inl, inr, true, false, List,
  [], ◌∷◌, ◌++◌, append-nil, not, if◌then◌else◌, length, length-append, All, All-append, arith,
}
use teg.Prelude.Words.{IsU8, sub32, IsU32}
use teg.Ota.Crc.{crc32_update}
use teg.Ota.Crc.Detect.{crc32_update-append}
use teg.Ota.Hex.Sound.{IsValid}
use teg.Ota.Flash.{FlashOp, write, Memory, flash_base, buffer_base, image_max, sector_size}
use teg.Ota.Ingest.{
  OtaIngest, fail, ota_sector_erased, ota_mark_erased, erase_loop, stage_data, ota_handle_data,
  below_flash_base, exceeds_buffer, not_contiguous,
}
use teg.Ota.Ingest.Erase.{Erases, erase_loop-Erases, InBuffer}
use teg.Ota.Ingest.Staged.{Holds, Holds-stage}
use teg.Ota.Ingest.Invariant.{written, written-append, Busy, Staged, Good, Good-quiet, Good-fail}

-- The loop only erases.
pub written-erase_loop : (n sec last : ℕ) (e : List ℕ) → written (erase_loop n sec last e).1 ≡ []
unfolding erase_loop written
written-erase_loop zero sec last e = refl
written-erase_loop (suc n) sec last e = ground (
  arith,
  written-erase_loop n (sec + 1) last
      (if not (ota_sector_erased e sec) then ota_mark_erased e sec else e),
)

module _ (m : Memory) (s : OtaIngest) (img bs : List ℕ) (addr start : ℕ)
    (h : Holds s.erased m start img) (at : addr ≡ flash_base + (start + length img))
    (first : s.min_addr ≡ flash_base + start) (live : s.have_data ≡ true)
    (behind : s.max_addr < addr) (fits : start + length img + length bs ≤ image_max)
    (some_bytes : 0 < length bs) (few : length bs < 256) (bytes : All IsU8 bs)
    (hex_valid : IsValid s.hex) (bitmap : length s.erased ≡ 120)
    (crc_of : s.crc ≡ crc32_update 0xFFFFFFFF img) (bytes_of : s.bytes_written ≡ length img)
    (img_IsU8 : All IsU8 img) where
  abbrev first_sector : ℕ
  first_sector = (start + length img) / sector_size

  abbrev last_sector : ℕ
  last_sector = (start + length img + length bs - 1) / sector_size

  abbrev out : List ℕ × List FlashOp
  out = erase_loop (last_sector + 1 - first_sector) first_sector last_sector s.erased

  abbrev ops : List FlashOp
  ops = out.1 ++ write (buffer_base + (start + length img)) bs ∷ []

  off_eq : sub32 addr flash_base ≡ start + length img
  off_eq = omega arith

  erases : Erases first_sector last_sector s.erased out
  erases =
      erase_loop-Erases (last_sector + 1 - first_sector) first_sector last_sector s.erased
        (omega arith) (omega arith) bitmap

  written_ops : written ops ≡ bs
  written_ops =
      written-append out.1 (write (buffer_base + (start + length img)) bs ∷ [])
      ∙ rw (written-erase_loop (last_sector + 1 - first_sector) first_sector last_sector s.erased)
          (unfold written in append-nil bs)

  -- The record behind all the checks.
  pub Good-stage : Good m img (stage_data s addr bs)
  unfolding stage_data
  Good-stage = rw off_eq (record {
    inside = All-append InBuffer out.1 _ erases.inside ((omega arith, omega arith, few), tt);
    staged = rw written_ops (record {
      hex_valid = hex_valid;
      bitmap = erases.size ∙ bitmap;
      crc_of = ap (λ t. crc32_update t bs) crc_of ∙ sym (crc32_update-append 0xFFFFFFFF img bs);
      bytes_of = omega (arith, length-append img bs);
      img_IsU8 = All-append IsU8 img bs img_IsU8 bytes;
      idle = λ t. absurd (cc);
      busy = λ t. record {
        above = omega arith;
        next = omega (arith, length-append img bs);
        top = ground arith;
        nonempty = omega (arith, length-append img bs);
        fits = omega (arith, length-append img bs);
        holds =
            let e : s.min_addr - flash_base ≡ start = omega arith in
            rw e (Holds-stage s.erased m start img bs h fits some_bytes bytes out erases);
      };
    });
  })

module _ (s : OtaIngest) (addr : ℕ) (bs : List ℕ) where
  handle_first :
      0 < length bs
      → flash_base ≤ addr
      → sub32 addr flash_base < image_max
      → length bs ≤ image_max - sub32 addr flash_base
      → s.have_data ≡ false
      → ota_handle_data s addr bs
        ≡ stage_data (record s { have_data = true; min_addr = addr }) addr bs
  unfolding ota_handle_data
  handle_first h1 h2 h3 h4 h5 = ground arith

  handle_next :
      0 < length bs
      → flash_base ≤ addr
      → sub32 addr flash_base < image_max
      → length bs ≤ image_max - sub32 addr flash_base
      → s.have_data ≡ true
      → addr ≡ s.next_addr
      → ota_handle_data s addr bs ≡ stage_data s addr bs
  unfolding ota_handle_data
  handle_next h1 h2 h3 h4 h5 h6 = ground arith

  -- Every other record is refused, or is empty: it changes no field but `error`.
  handle_cases :
      (ota_handle_data s addr bs ≡ (true, s, []))
      ⊎ (ota_handle_data s addr bs ≡ fail s below_flash_base)
      ⊎ (ota_handle_data s addr bs ≡ fail s exceeds_buffer)
      ⊎ (ota_handle_data s addr bs ≡ fail s not_contiguous)
      ⊎ ((0 < length bs)
          × (flash_base ≤ addr)
          × (sub32 addr flash_base < image_max)
          × (length bs ≤ image_max - sub32 addr flash_base)
          × ((s.have_data ≡ false) ⊎ ((s.have_data ≡ true) × (addr ≡ s.next_addr))))
  unfolding ota_handle_data
  handle_cases = ground arith

-- A data record with up to 255 bytes keeps the invariant, whether it is staged or refused.
pub Good-handle :
    {m : Memory} {s : OtaIngest} {img : List ℕ} (addr : ℕ) (bs : List ℕ)
    → Staged m s img
    → IsU32 addr
    → All IsU8 bs
    → length bs < 256
    → Good m img (ota_handle_data s addr bs)
Good-handle {m} {s} {img} addr bs v ha hb few = elim (handle_cases s addr bs) [
  | inl e ↦ rw e (Good-quiet true v)
  | inr (inl e) ↦ rw e (Good-fail below_flash_base v)
  | inr (inr (inl e)) ↦ rw e (Good-fail exceeds_buffer v)
  | inr (inr (inr (inl e))) ↦ rw e (Good-fail not_contiguous v)
  | inr (inr (inr (inr (h1, h2, h3, h4, inl idle)))) ↦
      let (empty, top, none_erased) = v.idle idle in
      let no_bytes : length img ≡ 0 = ap length empty in
      let start : ℕ = addr - flash_base in
      rw (handle_first s addr bs h1 h2 h3 h4 idle) (
        Good-stage m (record s { have_data = true; min_addr = addr }) img bs addr start
          (record {
            held = λ i hi. absurd (omega arith);
            kept = λ i hi. absurd (omega arith);
            clean = λ x marked hx. ground (arith, none_erased (x / sector_size));
          })
          (omega arith) (omega arith) refl (omega arith) (omega arith) h1 few hb v.hex_valid
          v.bitmap v.crc_of v.bytes_of v.img_IsU8)
  | inr (inr (inr (inr (h1, h2, h3, h4, inr (live, at))))) ↦
      let b : Busy m s img = v.busy live in
      rw (handle_next s addr bs h1 h2 h3 h4 live at) (
        Good-stage m s img bs addr (s.min_addr - flash_base) b.holds
          (omega (arith, b.next, b.above)) (omega (arith, b.above)) live (omega (arith, b.top))
          (omega (arith, b.next, b.above)) h1 few hb v.hex_valid v.bitmap v.crc_of v.bytes_of
          v.img_IsU8)
]
