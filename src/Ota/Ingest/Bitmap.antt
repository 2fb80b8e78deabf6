-- ===== src/Ota/Ingest/Bitmap.antt =====
-- src/ota_ingest.h, `otaSectorErased` and `otaMarkErased`: the packed bitmap as a set of sectors.
use native.Mathlib.Decide.{ℕ_discrete}
use teg.Prelude.{
  ℕ, ◌/◌, ◌%◌, ◌^◌, ◌<◌, ◌≡◌, refl, true, List, ◌==◌, if◌then◌else◌, length, length-set, get_or,
  get_or-set_self, get_or-set_ne, bit_or, arith,
}
use teg.Prelude.Words.{u8}
use teg.Prelude.Bits.{bit_or-pow}
use teg.Prelude.Range.{all_below, all_below-apply}
use teg.Ota.Ingest.{ota_sector_erased, ota_mark_erased}

one_bit : (j : ℕ) → j < 8 → u8 (2 ^ j) ≡ 2 ^ j
unfolding all_below
one_bit j h = ground (arith, all_below-apply 8 (λ k. u8 (2 ^ k) == 2 ^ k) j refl h)

pub length-mark : (e : List ℕ) (j : ℕ) → length (ota_mark_erased e j) ≡ length e
unfolding ota_mark_erased
length-mark e j = length-set e (j / 8) _

-- Marking a sector sets its bit and no other.
pub erased-mark :
    (e : List ℕ) (j k : ℕ)
    → j / 8 < length e
    → ota_sector_erased (ota_mark_erased e j) k ≡ (if j == k then true else ota_sector_erased e k)
unfolding ota_sector_erased ota_mark_erased
erased-mark e j k h = elim (ℕ_discrete (j / 8) (k / 8)) [
  | yes same ↦ ground (
    arith,
    one_bit (j % 8),
    get_or-set_self e (j / 8) (bit_or (get_or e (j / 8) 0) (2 ^ (j % 8))) 0 h,
    bit_or-pow (get_or e (j / 8) 0) (j % 8) (k % 8),
  )
  | no other ↦ ground (
    arith,
    get_or-set_ne e (j / 8) (k / 8) (bit_or (get_or e (j / 8) 0) (u8 (2 ^ (j % 8)))) 0 other,
  )
]
