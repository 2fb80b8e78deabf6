-- ===== src/Spwm/Duty.antt =====
-- src/spwm_math.h, `spwmDutyFromPhase`: the interpolation between two entries of the table.
use teg.Prelude.{ℕ, ◌+◌, ◌-◌, ◌*◌, ◌/◌, ◌%◌, ◌^◌, ◌≤◌, ◌<◌, min, max, arith}
use teg.Prelude.Words.{IsU16}
use native.Mathlib.Nat.{mul-le-mul_left}
use teg.Spwm.{spwm_duty_from_phase}

-- At most `frac` parts in 256 of a distance are at most the distance.
part-le : (d frac : ℕ) → frac < 256 → d * frac ≤ d * 255
part-le d frac h = mul-le-mul_left d (omega arith)

-- With 16-bit entries, the duty at any phase lies between the two entries of the table that it is interpolated from.
pub duty-between :
    (lut : ℕ → ℕ) (phase : ℕ)
    → IsU16 (lut (phase / 2 ^ 21))
    → IsU16 (lut ((phase / 2 ^ 21 + 1) % 2048))
    → (min (lut (phase / 2 ^ 21)) (lut ((phase / 2 ^ 21 + 1) % 2048))
        ≤ spwm_duty_from_phase lut phase)
      × (spwm_duty_from_phase lut phase
          ≤ max (lut (phase / 2 ^ 21)) (lut ((phase / 2 ^ 21 + 1) % 2048)))
unfolding spwm_duty_from_phase
duty-between lut phase ha hb =
    let a = lut (phase / 2 ^ 21) in
    let b = lut ((phase / 2 ^ 21 + 1) % 2048) in
    let frac = phase / 2 ^ 13 % 256 in
    ground (arith, part-le (b - a) frac (omega arith), part-le (a - b) frac (omega arith))
