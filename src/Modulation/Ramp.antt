-- ===== src/Modulation/Ramp.antt =====
-- The soft start, cycle by cycle.
use teg.Prelude.{
  ℕ, zero, suc, ◌+◌, ◌-◌, ◌*◌, ◌/◌, ◌^◌, ◌≤◌, ◌<◌, max, ◌≡◌, refl, ap, ◌∙◌, inl, inr, arith, ◌==◌,
  ==_iff, ==_ne, Bool-cases,
}
use teg.Modulation.{soft_start_step_q24, ramp_index_q24}
use native.Mathlib.Nat.{div-add-mod, mod-lt}

-- The index after n carrier cycles.
unfoldable pub ramp : ℕ → ℕ → ℕ → ℕ → ℕ
ramp zero current target step = current
ramp (suc n) current target step = ramp n (ramp_index_q24 current target step) target step

-- The distance to the target.
abbrev away : ℕ → ℕ → ℕ
away a b = (a - b) + (b - a)

once :
    (current target step : ℕ)
    → away (ramp_index_q24 current target step) (target * 2 ^ 24)
      ≤ away current (target * 2 ^ 24) - step
unfolding ramp_index_q24
once current target step = ground arith

-- Every cycle brings the index nearer by the step, from either side, and none goes beyond.
pub ramp-away :
    (n current target step : ℕ)
    → away (ramp n current target step) (target * 2 ^ 24)
      ≤ away current (target * 2 ^ 24) - n * step
unfolding ramp
ramp-away zero current target step = omega arith
ramp-away (suc n) current target step =
    omega (
      arith,
      ramp-away n (ramp_index_q24 current target step) target step,
      once current target step,
    )

ceiling_times : (a b : ℕ) → 0 < b → a ≤ b * ((a + b - 1) / b)
ceiling_times a b h = omega (arith, div-add-mod (a + b - 1) b, mod-lt (a + b - 1) h)

step_covers :
    (target ramp_ms carrier : ℕ)
    → 0 < ramp_ms * carrier / 1000
    → target * 2 ^ 24 ≤ ramp_ms * carrier / 1000 * soft_start_step_q24 target ramp_ms carrier
unfolding soft_start_step_q24
step_covers target ramp_ms carrier h =
    let steps = ramp_ms * carrier / 1000 in
    let step = (target * 2 ^ 24 + steps - 1) / steps in
    let covers = ceiling_times (target * 2 ^ 24) steps h in
    elim (Bool-cases (step == 0)) [
      | inl e ↦
          rw (==_ne steps 0 (λ z. absurd (omega (arith, z))), e)
            (omega (arith, covers, ap (λ (t : ℕ). steps * t) ((==_iff step 0).0 e)))
      | inr e ↦ rw (==_ne steps 0 (λ z. absurd (omega (arith, z))), e) covers
    ]

at_once :
    (target ramp_ms carrier : ℕ)
    → ramp_ms * carrier / 1000 ≡ 0
    → ramp (max 1 (ramp_ms * carrier / 1000)) 0 target (soft_start_step_q24 target ramp_ms carrier)
      ≡ target * 2 ^ 24
unfolding ramp soft_start_step_q24 ramp_index_q24
at_once target ramp_ms carrier e = rw e refl

-- A soft start from zero is at its target after the ramp time, to the last bit, whatever the target
-- and the carrier: it takes one cycle where the time is shorter than a cycle.
pub ramp-reaches :
    (target ramp_ms carrier : ℕ)
    → ramp (max 1 (ramp_ms * carrier / 1000)) 0 target (soft_start_step_q24 target ramp_ms carrier)
      ≡ target * 2 ^ 24
ramp-reaches target ramp_ms carrier = elim (Bool-cases (ramp_ms * carrier / 1000 == 0)) [
  | inl e ↦ at_once target ramp_ms carrier ((==_iff (ramp_ms * carrier / 1000) 0).0 e)
  | inr e ↦
      let steps = ramp_ms * carrier / 1000 in
      let step = soft_start_step_q24 target ramp_ms carrier in
      let positive : 0 < steps = ground arith in
      let longest : max 1 steps ≡ steps = omega (arith, positive) in
      ap (λ (n : ℕ). ramp n 0 target step) longest
      ∙ omega (arith, ramp-away steps 0 target step, step_covers target ramp_ms carrier positive)
]
