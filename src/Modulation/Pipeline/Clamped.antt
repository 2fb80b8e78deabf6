-- ===== src/Modulation/Pipeline/Clamped.antt =====
-- Discontinuous modulation: one leg stays at a rail.
use teg.Prelude.{
  ℕ, zero, suc, ◌<◌, ◌≡◌, ◌⊎◌, inl, inr, refl, ap, ◌∙◌, arith, get_or, ◌==◌, if◌then◌else◌,
  Bool-cases,
}
use teg.Prelude.Int.{ℤ, pos, negsuc, ◌+ℤ◌, ◌-ℤ◌, ◌≤ℤ◌, leb_ℤ, int_laws, +ℤ_parts, -ℤ_parts}
use teg.Modulation.{mod_scheme_dpwm, CellPlan}
use teg.Modulation.Pipeline.{
  compensate, duty_from_scaled, Refs, at, lowest, highest, largest_mag, smallest_mag, intermediate,
  advanced, dpwm_min, dpwm_max, dpwm3, to_rail, dpwm_zss, ModCycleConfig, cycle_zss,
  three_phase_scaled_refs, three_phase_duties, modulation_cycle_duties,
}
use teg.Modulation.Pipeline.Saturate.{to_duty-high, to_duty-low}
use teg.Modulation.Pipeline.Centred.{three_phase_cycle}

-- Every choice is one of the three legs.
pub lowest_in : (v : Refs) → lowest v < 3
unfolding lowest
lowest_in v = ground arith

highest_in : (v : Refs) → highest v < 3
unfolding highest
highest_in v = ground arith

largest_in : (v : Refs) → largest_mag v < 3
unfolding largest_mag
largest_in v = ground arith

intermediate_in : (v : Refs) → intermediate v < 3
unfolding intermediate largest_mag smallest_mag
intermediate_in v = ground arith

-- The references are not all of one sign.
pub record IsMixed (v : Refs) : Type 0 where
  pub low : (v.v0 ≤ℤ pos 0) ⊎ (v.v1 ≤ℤ pos 0) ⊎ (v.v2 ≤ℤ pos 0)
  pub high : (pos 0 ≤ℤ v.v0) ⊎ (pos 0 ≤ℤ v.v1) ⊎ (pos 0 ≤ℤ v.v2)

lowest-low : (v : Refs) → IsMixed v → at v (lowest v) ≤ℤ pos 0
unfolding lowest
lowest-low v h = ground (arith, h.low)

highest-high : (v : Refs) → IsMixed v → pos 0 ≤ℤ at v (highest v)
unfolding highest
highest-high v h = ground (arith, h.high)

compensate-up : (v x : ℤ) (comp : ℕ) → pos 0 ≤ℤ x → v ≤ℤ compensate v (pos comp) x
unfolding compensate
compensate-up v x comp h = ground (arith, +ℤ_parts v (pos comp))

compensate-down : (v x : ℤ) (comp : ℕ) → x ≤ℤ pos 0 → compensate v (pos comp) x ≤ℤ v
unfolding compensate
compensate-down v x comp h = ground (arith, -ℤ_parts v (pos comp))

-- The duty of a leg that the zero sequence takes to the rail on its own side.
raised :
    (x : ℤ) (comp : ℕ) → pos 0 ≤ℤ x → duty_from_scaled (x +ℤ (pos 32767 -ℤ x)) (pos comp) x ≡ 65535
unfolding duty_from_scaled
raised x comp h =
    let v = x +ℤ (pos 32767 -ℤ x) in
    to_duty-high (compensate v (pos comp) x) (omega (int_laws, compensate-up v x comp h))

lowered :
    (x : ℤ) (comp : ℕ) → x ≤ℤ pos 0 → duty_from_scaled (x +ℤ (negsuc 32766 -ℤ x)) (pos comp) x ≡ 1
unfolding duty_from_scaled
lowered x comp h =
    let v = x +ℤ (negsuc 32766 -ℤ x) in
    to_duty-low (compensate v (pos comp) x) (omega (int_laws, compensate-down v x comp h))

abbrev pub IsRail : ℕ → Type 0
IsRail d = (d ≡ 1) ⊎ (d ≡ 65535)

railed : (x : ℤ) (comp : ℕ) → IsRail (duty_from_scaled (x +ℤ to_rail x) (pos comp) x)
unfolding to_rail
railed x comp = elim (Bool-cases (leb_ℤ (pos 0) x)) [
  | inl e ↦ rw e (inr (raised x comp (ground arith)))
  | inr e ↦ rw e (inl (lowered x comp (ground arith)))
]

-- The leg that a variant clamps.
unfoldable pub clamped_leg : (ℕ → ℤ) → ℕ → ℕ → ℕ → Refs → ℕ
clamped_leg lut phase clamp_angle_phase variant v =
    if variant == dpwm_min
    then lowest v
    else if variant == dpwm_max
    then highest v
    else if variant == dpwm3
    then intermediate v
    else largest_mag (advanced lut phase clamp_angle_phase)

module _ (lut : ℕ → ℤ) (phase clamp_angle_phase variant : ℕ) (v : Refs) where
  abbrev leg : ℕ
  leg = clamped_leg lut phase clamp_angle_phase variant v

  leg_in : leg < 3
  unfolding clamped_leg
  leg_in = ground (
    arith,
    lowest_in v,
    highest_in v,
    intermediate_in v,
    largest_in (advanced lut phase clamp_angle_phase),
  )

  leg-IsRail :
      (comp : ℕ)
      → IsMixed v
      → IsRail (
          duty_from_scaled
            (at v leg +ℤ dpwm_zss lut phase clamp_angle_phase variant v)
            (pos comp)
            (at v leg))
  unfolding clamped_leg dpwm_zss
  leg-IsRail comp h = elim (Bool-cases (variant == dpwm_min)) [
    | inl e ↦ rw e (inl (lowered (at v (lowest v)) comp (lowest-low v h)))
    | inr e ↦ elim (Bool-cases (variant == dpwm_max)) [
      | inl f ↦ rw (e, f) (inr (raised (at v (highest v)) comp (highest-high v h)))
      | inr f ↦ elim (Bool-cases (variant == dpwm3)) [
        | inl g ↦ rw (e, f, g) (railed (at v (intermediate v)) comp)
        | inr g ↦
            rw (e, f, g) (railed (at v (largest_mag (advanced lut phase clamp_angle_phase))) comp)
      ]
    ]
  ]

get-three_phase :
    (c : ModCycleConfig) (v : Refs) (z : ℤ) (k : ℕ)
    → k < 3
    → get_or (three_phase_duties c v z) k 0 ≡ duty_from_scaled (at v k +ℤ z) c.dt_comp_q15 (at v k)
unfolding three_phase_duties
get-three_phase c v z zero h = refl
get-three_phase c v z (suc zero) h = refl
get-three_phase c v z (suc (suc zero)) h = refl
get-three_phase c v z (suc (suc (suc k))) h = absurd (omega arith)

module _ (lut : ℕ → ℤ) (phase index_q15 : ℕ) (c : ModCycleConfig) (plans : ℕ → CellPlan) where
  abbrev refs : Refs
  refs = three_phase_scaled_refs lut phase index_q15

  pub dpwm_cycle_zss :
      c.scheme ≡ mod_scheme_dpwm
      → cycle_zss lut phase c refs ≡ dpwm_zss lut phase c.dpwm_clamp_phase c.dpwm_variant refs
  unfolding cycle_zss
  dpwm_cycle_zss s = ground arith

  abbrev pub clamped : ℕ
  clamped = clamped_leg lut phase c.dpwm_clamp_phase c.dpwm_variant refs

  clamped_duty :
      (comp : ℕ)
      → c.scheme ≡ mod_scheme_dpwm
      → c.dt_comp_q15 ≡ pos comp
      → get_or (modulation_cycle_duties lut phase index_q15 c plans) clamped 0
        ≡ duty_from_scaled
            (at refs clamped +ℤ dpwm_zss lut phase c.dpwm_clamp_phase c.dpwm_variant refs)
            (pos comp)
            (at refs clamped)
  clamped_duty comp s t =
      let z = cycle_zss lut phase c refs in
      let zss : z ≡ dpwm_zss lut phase c.dpwm_clamp_phase c.dpwm_variant refs = dpwm_cycle_zss s in
      ap (λ ds. get_or ds clamped 0) (three_phase_cycle lut phase index_q15 c plans (inr (inl s)))
      ∙ get-three_phase c refs z clamped (leg_in lut phase c.dpwm_clamp_phase c.dpwm_variant refs)
      ∙ ap (λ w. duty_from_scaled (at refs clamped +ℤ w) c.dt_comp_q15 (at refs clamped)) zss
      ∙ ap
          (λ d.
            duty_from_scaled
              (at refs clamped +ℤ dpwm_zss lut phase c.dpwm_clamp_phase c.dpwm_variant refs) d
              (at refs clamped))
          t

  -- Discontinuous modulation: for every variant, the leg that it picks is one of the three, and does
  -- not switch in this cycle, whatever the dead-time compensation, where that is not negative and the
  -- references are not all of one sign.
  pub dpwm-IsRail :
      (comp : ℕ)
      → c.scheme ≡ mod_scheme_dpwm
      → c.dt_comp_q15 ≡ pos comp
      → IsMixed refs
      → (clamped < 3)
        × IsRail (get_or (modulation_cycle_duties lut phase index_q15 c plans) clamped 0)
  dpwm-IsRail comp s t h = (
    leg_in lut phase c.dpwm_clamp_phase c.dpwm_variant refs,
    elim (leg-IsRail lut phase c.dpwm_clamp_phase c.dpwm_variant refs comp h) [
      | inl low ↦ inl (clamped_duty comp s t ∙ low)
      | inr high ↦ inr (clamped_duty comp s t ∙ high)
    ],
  )
