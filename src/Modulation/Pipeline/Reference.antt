-- ===== src/Modulation/Pipeline/Reference.antt =====
-- The reference between the entries of its table, and the products of 32 bits.
use teg.Prelude.{ℕ, ◌+◌, ◌*◌, ◌/◌, ◌%◌, ◌^◌, ◌≤◌, ◌<◌, arith}
use native.Mathlib.Nat.{mul-le-mul, mul-le-mul_left}
use teg.Prelude.Int.{
  ℤ, pos, negsuc, ◌-ℤ◌, ◌≤ℤ◌, scale, shift_right, pos_part, neg_part, nat_abs, +ℤ_parts, -ℤ_parts,
  one_sided,
}
use teg.Modulation.{index_milli_to_q15}
use teg.Modulation.Pipeline.{interpolate, ref_from_phase}
use teg.Modulation.Pipeline.Saturate.{IsWithin}

-- A part of a difference has its sign, and is no larger.
step-between :
    (d : ℤ) (frac : ℕ)
    → frac < 256
    → (pos_part (shift_right (scale d frac) 8) ≤ pos_part d)
      × (neg_part (shift_right (scale d frac) 8) ≤ neg_part d)
unfolding scale shift_right
step-between (pos m) frac h =
    let part : m * frac ≤ m * 255 = mul-le-mul_left m (omega arith) in (omega arith, omega arith)
step-between (negsuc m) frac h =
    let part : (m + 1) * frac ≤ (m + 1) * 255 = mul-le-mul_left (m + 1) (omega arith) in
    (ground arith, ground arith)

-- What bounds two entries bounds every value between them.
interpolate-between :
    (low high a b : ℤ) (frac : ℕ)
    → frac < 256
    → low ≤ℤ a
    → low ≤ℤ b
    → a ≤ℤ high
    → b ≤ℤ high
    → (low ≤ℤ interpolate a b frac) × (interpolate a b frac ≤ℤ high)
unfolding interpolate
interpolate-between low high a b frac h la lb ah bh =
    let step = step-between (b -ℤ a) frac h in
    let parts = +ℤ_parts a (shift_right (scale (b -ℤ a) frac) 8) in
    (
      omega (arith, step.0, step.1, parts, -ℤ_parts b a, one_sided (b -ℤ a)),
      omega (arith, step.0, step.1, parts, -ℤ_parts b a, one_sided (b -ℤ a)),
    )

ref-IsWithin :
    (lut : ℕ → ℤ) (phase : ℕ) → ((i : ℕ) → IsWithin (lut i)) → IsWithin (ref_from_phase lut phase)
unfolding ref_from_phase
ref-IsWithin lut phase h =
    let idx = phase / 2 ^ 21 in
    let next = (idx + 1) % 2048 in
    let r =
      interpolate-between (negsuc 32766) (pos 32767) (lut idx) (lut next) (phase / 2 ^ 13 % 256)
        (omega arith) (h idx).above (h next).above (h idx).under (h next).under in
    record { above = r.0; under = r.1 }

product-fits :
    (r : ℤ) (index_milli : ℕ)
    → IsWithin r
    → index_milli ≤ 1155
    → nat_abs (scale r (index_milli_to_q15 index_milli)) < 2147483648
unfolding scale index_milli_to_q15
product-fits (pos m) i h k =
    let q : i * 2 ^ 15 / 1000 ≤ 37847 = omega arith in
    let p : m * (i * 2 ^ 15 / 1000) ≤ 32767 * 37847 =
      mul-le-mul (let le : m ≤ 32767 = omega (arith, h.under) in le) q in
    omega arith
product-fits (negsuc m) i h k =
    let q : i * 2 ^ 15 / 1000 ≤ 37847 = omega arith in
    let le : m + 1 ≤ 32767 = omega (arith, h.above) in
    let p : (m + 1) * (i * 2 ^ 15 / 1000) ≤ 32767 * 37847 = mul-le-mul le q in ground arith

-- For a table within the rails, any phase and any index that the configuration allows, the reference
-- is within the rails, and its product with the index fits a signed 32-bit number.
pub ref-Fits :
    (lut : ℕ → ℤ) (phase index_milli : ℕ)
    → ((i : ℕ) → IsWithin (lut i))
    → index_milli ≤ 1155
    → IsWithin (ref_from_phase lut phase)
      × (nat_abs (scale (ref_from_phase lut phase) (index_milli_to_q15 index_milli)) < 2147483648)
ref-Fits lut phase index_milli h k =
    let r = ref-IsWithin lut phase h in (r, product-fits (ref_from_phase lut phase) index_milli r k)
