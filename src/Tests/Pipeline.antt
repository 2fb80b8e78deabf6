-- ===== src/Tests/Pipeline.antt =====
-- The modulation pipeline, a successful save and the pins at concrete inputs.
use teg.Prelude.{ℕ, ◌<◌, ◌≡◌, refl, inl, inr, false, arith, ltb, if◌then◌else◌, get_or}
use teg.Prelude.Int.{ℤ, pos, negsuc, ◌+ℤ◌, ◌-ℤ◌, scale, shift_right, nat_abs}
use teg.Modulation.{CellPlan, index_milli_to_q15}
use teg.Modulation.Pipeline.{
  interpolate, ref_from_phase, scaled_ref, Refs, three_phase_scaled_refs, ModCycleConfig,
  modulation_cycle_duties,
}
use teg.Modulation.Pipeline.Saturate.{IsWithin}
use teg.Modulation.Pipeline.Reference.{ref-Fits}
use teg.Modulation.Pipeline.Centred.{IsLinear, IsLineToLine, svpwm-IsLineToLine}
use teg.Modulation.Pipeline.Neutral.{IsPure, neutral-IsPure}
use teg.Modulation.Pipeline.Clamped.{IsRail, clamped, IsMixed, dpwm-IsRail}
use teg.Modulation.Pipeline.Aligned.{dpwm-IsLineToLine}

-- A square wave.
abbrev lut : ℕ → ℤ
lut i = if ltb i 1024 then pos 30000 else negsuc 29999

abbrev plans : ℕ → CellPlan
plans k = record { polarity_inverted = false; duty_complement = false }

abbrev engine : ℕ → ℕ → ℤ → ModCycleConfig
engine scheme variant comp = record {
  scheme = scheme;
  cells = 2;
  dpwm_variant = variant;
  dpwm_clamp_phase = 0;
  nearest_level = false;
  dt_comp_q15 = comp;
}

abbrev wave : Refs
wave = record { v0 = pos 30000; v1 = negsuc 29999; v2 = pos 30000 }

wave_refs : three_phase_scaled_refs lut 100000000 32768 ≡ wave
unfolding three_phase_scaled_refs scaled_ref ref_from_phase interpolate scale shift_right ◌+ℤ◌ ◌-ℤ◌
wave_refs = refl

wave-IsLinear : IsLinear (three_phase_scaled_refs lut 100000000 32768)
unfolding ◌+ℤ◌
wave-IsLinear = rw wave_refs (record {
  ab = omega arith;
  ba = omega arith;
  bc = omega arith;
  cb = omega arith;
  ca = omega arith;
  ac = omega arith;
})

svpwm-IsLineToLine_example :
    IsLineToLine
      (three_phase_scaled_refs lut 100000000 32768)
      (modulation_cycle_duties lut 100000000 32768 (engine 6 0 (pos 0)) plans)
svpwm-IsLineToLine_example =
    svpwm-IsLineToLine lut 100000000 32768 (engine 6 0 (pos 0)) plans (inl refl) refl wave-IsLinear

dpwm-IsLineToLine_example :
    IsLineToLine
      (three_phase_scaled_refs lut 100000000 32768)
      (modulation_cycle_duties lut 100000000 32768 (engine 7 0 (pos 0)) plans)
dpwm-IsLineToLine_example =
    dpwm-IsLineToLine lut 100000000 32768 (engine 7 0 (pos 0)) plans refl (inl refl) refl
      wave-IsLinear

wave-IsMixed : IsMixed (three_phase_scaled_refs lut 100000000 32768)
wave-IsMixed = rw wave_refs (record { low = inr (inl (omega arith)); high = inl (omega arith) })

dpwm-IsRail_example :
    (clamped lut 100000000 32768 (engine 7 3 (pos 100)) plans < 3)
    × IsRail (
        get_or
          (modulation_cycle_duties lut 100000000 32768 (engine 7 3 (pos 100)) plans)
          (clamped lut 100000000 32768 (engine 7 3 (pos 100)) plans)
          0)
dpwm-IsRail_example =
    dpwm-IsRail lut 100000000 32768 (engine 7 3 (pos 100)) plans 100 refl refl wave-IsMixed

wave0 : IsWithin (three_phase_scaled_refs lut 100000000 32768).v0
wave0 = rw wave_refs (record { above = omega arith; under = omega arith })

wave1 : IsWithin (three_phase_scaled_refs lut 100000000 32768).v1
wave1 = rw wave_refs (record { above = omega arith; under = omega arith })

wave2 : IsWithin (three_phase_scaled_refs lut 100000000 32768).v2
wave2 = rw wave_refs (record { above = omega arith; under = omega arith })

neutral-IsPure_example :
    IsPure
      (three_phase_scaled_refs lut 100000000 32768)
      (modulation_cycle_duties lut 100000000 32768 (engine 8 0 (pos 0)) plans)
neutral-IsPure_example =
    neutral-IsPure lut 100000000 32768 (engine 8 0 (pos 0)) plans refl refl wave0 wave1 wave2

lut-IsWithin : (i : ℕ) → IsWithin (lut i)
lut-IsWithin i = record { above = ground arith; under = ground arith }

ref-Fits_example :
    IsWithin (ref_from_phase lut 100000000)
    × (nat_abs (scale (ref_from_phase lut 100000000) (index_milli_to_q15 1155)) < 2147483648)
ref-Fits_example = ref-Fits lut 100000000 1155 lut-IsWithin (omega arith)
