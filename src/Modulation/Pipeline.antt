-- ===== src/Modulation/Pipeline.antt =====
-- src/modulation.h: one carrier cycle, from the phase to the duties. The table of the reference is a
-- function of the index into signed 16-bit values, and the plans a function of the cell. The signed
-- 32-bit numbers are integers.
pub mod Reference
pub mod Saturate
pub mod Centred
pub mod Neutral
pub mod Clamped
pub mod Aligned
use teg.Prelude.{
  ℕ, zero, suc, ◌+◌, ◌-◌, ◌*◌, ◌/◌, ◌%◌, ◌^◌, Bool, ◌||◌, List, [], ◌∷◌, ltb, ◌==◌, if◌then◌else◌,
}
use teg.Prelude.Words.{u32, sub32}
use teg.Prelude.Int.{
  ℤ, pos, negsuc, to_u16, to_u32, nat_abs, ◌+ℤ◌, ◌-ℤ◌, scale, shift_right, tdiv, ltb_ℤ, leb_ℤ,
}
use teg.Modulation.{
  mod_scheme_level_shifted, mod_scheme_svpwm, mod_scheme_dpwm, mod_scheme_svpwm3d, CellPlan,
  modulation_cell_duty, modulation_final_duty,
}

abbrev pub phase_shift_120_deg : ℕ
phase_shift_120_deg = 1431655765

-- Between two entries of the table.
unfoldable pub interpolate : ℤ → ℤ → ℕ → ℤ
interpolate a b frac = a +ℤ shift_right (scale (b -ℤ a) frac) 8

unfoldable pub ref_from_phase : (ℕ → ℤ) → ℕ → ℤ
ref_from_phase lut phase =
    let idx = phase / 2 ^ 21 in
    let frac = phase / 2 ^ 13 % 256 in interpolate (lut idx) (lut ((idx + 1) % 2048)) frac

-- The quotient is cut to the source's signed 32 bits.
unfoldable pub deadtime_comp_q15 : ℕ → ℕ → ℤ
deadtime_comp_q15 deadtime_ns carrier_hz =
    let n = 2 * deadtime_ns * carrier_hz * 2 ^ 15 % 2 ^ 64 / 1000000000 % 2 ^ 32 in
    if ltb n 2147483648 then pos n else negsuc (4294967295 - n)

unfoldable pub degrees_to_phase : ℤ → ℕ
degrees_to_phase degrees = to_u32 (tdiv (scale degrees 4294967296) 360)

-- The dead time costs the pulse, or lengthens it, by the sign of the current.
unfoldable pub compensate : ℤ → ℤ → ℤ → ℤ
compensate v dt_comp_q15 source =
    if nat_abs dt_comp_q15 == 0
    then v
    else if ltb_ℤ (pos 0) source
    then v +ℤ dt_comp_q15
    else if ltb_ℤ source (pos 0)
    then v -ℤ dt_comp_q15
    else v

unfoldable pub saturate : ℤ → ℤ
saturate v =
    if ltb_ℤ (pos 32767) v then pos 32767 else if ltb_ℤ v (negsuc 32766) then negsuc 32766 else v

unfoldable pub to_duty : ℤ → ℕ
to_duty v = to_u16 (pos 32768 +ℤ saturate v)

-- `(unitRef * indexQ15) >> 15`
unfoldable pub scaled_ref : ℤ → ℕ → ℤ
scaled_ref unit_ref index_q15 = shift_right (scale unit_ref index_q15) 15

unfoldable pub ref_to_duty : ℤ → ℕ → ℤ → ℕ
ref_to_duty unit_ref index_q15 dt_comp_q15 =
    to_duty (compensate (scaled_ref unit_ref index_q15) dt_comp_q15 unit_ref)

unfoldable pub duty_from_scaled : ℤ → ℤ → ℤ → ℕ
duty_from_scaled v dt_comp_q15 polarity_source = to_duty (compensate v dt_comp_q15 polarity_source)

-- The array `v[3]`.
pub record Refs : Type 0 where
  pub v0 : ℤ
  pub v1 : ℤ
  pub v2 : ℤ

abbrev pub at : Refs → ℕ → ℤ
at v k = if k == 0 then v.v0 else if k == 1 then v.v1 else v.v2

unfoldable pub three_phase_scaled_refs : (ℕ → ℤ) → ℕ → ℕ → Refs
three_phase_scaled_refs lut phase index_q15 = record {
  v0 = scaled_ref (ref_from_phase lut phase) index_q15;
  v1 = scaled_ref (ref_from_phase lut (sub32 phase phase_shift_120_deg)) index_q15;
  v2 = scaled_ref (ref_from_phase lut (sub32 phase (2 * phase_shift_120_deg))) index_q15;
}

-- The loops over the legs, which keep the first of equals.
unfoldable pub max_ℤ : ℤ → ℤ → ℤ
max_ℤ mx x = if ltb_ℤ mx x then x else mx

unfoldable pub min_ℤ : ℤ → ℤ → ℤ
min_ℤ mn x = if ltb_ℤ x mn then x else mn

unfoldable pub continuous_svm_zss : Refs → ℤ
continuous_svm_zss v =
    tdiv (pos 0 -ℤ (max_ℤ (max_ℤ v.v0 v.v1) v.v2 +ℤ min_ℤ (min_ℤ v.v0 v.v1) v.v2)) 2

unfoldable pub lowest : Refs → ℕ
lowest v = let sel = if ltb_ℤ v.v1 v.v0 then 1 else 0 in if ltb_ℤ v.v2 (at v sel) then 2 else sel

unfoldable pub highest : Refs → ℕ
highest v = let sel = if ltb_ℤ v.v0 v.v1 then 1 else 0 in if ltb_ℤ (at v sel) v.v2 then 2 else sel

abbrev pub mag : Refs → ℕ → ℕ
mag v k = nat_abs (at v k)

unfoldable pub largest_mag : Refs → ℕ
largest_mag v =
    let hi = if ltb (mag v 0) (mag v 1) then 1 else 0 in if ltb (mag v hi) (mag v 2) then 2 else hi

unfoldable pub smallest_mag : Refs → ℕ
smallest_mag v =
    let lo = if ltb (mag v 1) (mag v 0) then 1 else 0 in if ltb (mag v 2) (mag v lo) then 2 else lo

-- Dpwm3: the leg of neither the largest nor the smallest magnitude.
unfoldable pub intermediate : Refs → ℕ
intermediate v =
    let hi = largest_mag v in let lo = smallest_mag v in if hi == lo then hi else 3 - hi - lo

-- DpwmGeneralised: the leg of the largest reference at an advanced phase.
unfoldable pub advanced : (ℕ → ℤ) → ℕ → ℕ → Refs
advanced lut phase clamp_angle_phase =
    let leg = λ (k : ℕ).
      ref_from_phase lut
        (sub32 (u32 (phase + clamp_angle_phase)) (u32 (k * phase_shift_120_deg))) in
    record { v0 = leg 0; v1 = leg 1; v2 = leg 2 }

abbrev pub dpwm_min : ℕ
dpwm_min = 0

abbrev pub dpwm_max : ℕ
dpwm_max = 1

abbrev pub dpwm3 : ℕ
dpwm3 = 3

-- The rail on the side of the reference.
unfoldable pub to_rail : ℤ → ℤ
to_rail x = if leb_ℤ (pos 0) x then pos 32767 -ℤ x else negsuc 32766 -ℤ x

unfoldable pub dpwm_zss : (ℕ → ℤ) → ℕ → ℕ → ℕ → Refs → ℤ
dpwm_zss lut phase clamp_angle_phase variant v =
    if variant == dpwm_min
    then negsuc 32766 -ℤ at v (lowest v)
    else if variant == dpwm_max
    then pos 32767 -ℤ at v (highest v)
    else if variant == dpwm3
    then to_rail (at v (intermediate v))
    else to_rail (at v (largest_mag (advanced lut phase clamp_angle_phase)))

pub record ModCycleConfig : Type 0 where
  pub scheme : ℕ
  pub cells : ℕ
  pub dpwm_variant : ℕ
  pub dpwm_clamp_phase : ℕ
  pub nearest_level : Bool
  pub dt_comp_q15 : ℤ

-- The zero sequence of the scheme.
unfoldable pub cycle_zss : (ℕ → ℤ) → ℕ → ModCycleConfig → Refs → ℤ
cycle_zss lut phase c v =
    if c.scheme == mod_scheme_dpwm
    then dpwm_zss lut phase c.dpwm_clamp_phase c.dpwm_variant v
    else continuous_svm_zss v

-- The loop over the three legs, and the neutral leg.
unfoldable pub three_phase_duties : ModCycleConfig → Refs → ℤ → List ℕ
three_phase_duties c v zss =
    let leg = λ (x : ℤ). duty_from_scaled (x +ℤ zss) c.dt_comp_q15 x in
    leg v.v0
    ∷ leg v.v1
    ∷ leg v.v2
    ∷ (if c.scheme == mod_scheme_svpwm3d then duty_from_scaled zss (pos 0) (pos 0) ∷ [] else [])

-- The loop over the cells from `k` on, with the rounds left first.
unfoldable pub cell_duties : ℕ → ℕ → ModCycleConfig → (ℕ → CellPlan) → ℕ → List ℕ
cell_duties zero k c plans ref = []
cell_duties (suc rounds) k c plans ref =
    modulation_final_duty (modulation_cell_duty c.scheme ref k c.cells c.nearest_level) (plans k)
    ∷ cell_duties rounds (k + 1) c plans ref

-- The duties that are written.
unfoldable pub modulation_cycle_duties : (ℕ → ℤ) → ℕ → ℕ → ModCycleConfig → (ℕ → CellPlan) → List ℕ
modulation_cycle_duties lut phase index_q15 c plans =
    let v = three_phase_scaled_refs lut phase index_q15 in
    let comp = if c.scheme == mod_scheme_level_shifted then pos 0 else c.dt_comp_q15 in
    let ref = ref_to_duty (ref_from_phase lut phase) index_q15 comp in
    let cells = cell_duties c.cells 0 c plans ref in
    if c.scheme == mod_scheme_svpwm || c.scheme == mod_scheme_dpwm || c.scheme == mod_scheme_svpwm3d
    then three_phase_duties c v (cycle_zss lut phase c v)
    else cells
