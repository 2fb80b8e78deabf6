-- ===== src/Modulation/Pipeline/Neutral.antt =====
-- The voltages to the neutral leg of the four-leg scheme.
use teg.Prelude.{ℕ, ◌≡◌, inr, List, arith, get_or}
use teg.Prelude.Int.{ℤ, pos, negsuc, ◌+ℤ◌, ◌-ℤ◌, ◌≤ℤ◌, int_laws, nat_abs, +ℤ_parts}
use teg.Modulation.{mod_scheme_svpwm3d, CellPlan}
use teg.Modulation.Pipeline.{
  compensate, duty_from_scaled, Refs, max_ℤ, min_ℤ, continuous_svm_zss, ModCycleConfig,
  three_phase_scaled_refs, three_phase_duties, modulation_cycle_duties,
}
use teg.Modulation.Pipeline.Saturate.{IsWithin, to_duty-within}
use teg.Modulation.Pipeline.Centred.{
  IsLinear, half-lem, envelope, mx, mn, centred_cycle, uncompensated_leg, leg-IsWithin,
}

-- The duties differ from the neutral leg's by the references.
pub record IsPure (v : Refs) (duties : List ℕ) : Type 0 where
  pub a : pos (get_or duties 0 0) -ℤ pos (get_or duties 3 0) ≡ v.v0
  pub b : pos (get_or duties 1 0) -ℤ pos (get_or duties 3 0) ≡ v.v1
  pub c : pos (get_or duties 2 0) -ℤ pos (get_or duties 3 0) ≡ v.v2

within-IsLinear : (v : Refs) → IsWithin v.v0 → IsWithin v.v1 → IsWithin v.v2 → IsLinear v
within-IsLinear v w0 w1 w2 = record {
  ab = omega int_laws;
  ba = omega int_laws;
  bc = omega int_laws;
  cb = omega int_laws;
  ca = omega int_laws;
  ac = omega int_laws;
}

extremes-within :
    (v : Refs)
    → IsWithin v.v0
    → IsWithin v.v1
    → IsWithin v.v2
    → (mx v ≤ℤ pos 32767) × (negsuc 32766 ≤ℤ mn v) × (mn v ≤ℤ pos 32767) × (negsuc 32766 ≤ℤ mx v)
unfolding max_ℤ min_ℤ
extremes-within v w0 w1 w2 =
    ground (arith, w0.above, w0.under, w1.above, w1.under, w2.above, w2.under)

zss-IsWithin :
    (v : Refs) → IsWithin v.v0 → IsWithin v.v1 → IsWithin v.v2 → IsWithin (continuous_svm_zss v)
unfolding continuous_svm_zss
zss-IsWithin v w0 w1 w2 =
    let s = mx v +ℤ mn v in
    let half = half-lem s in
    let (a, b, c, d) = extremes-within v w0 w1 w2 in
    record {
      above = omega (arith, a, b, c, d, half.0, half.1, +ℤ_parts (mx v) (mn v));
      under = omega (arith, a, b, c, d, half.0, half.1, +ℤ_parts (mx v) (mn v));
    }

neutral_leg : (z : ℤ) → IsWithin z → pos (duty_from_scaled z (pos 0) (pos 0)) ≡ pos 32768 +ℤ z
unfolding duty_from_scaled compensate
neutral_leg z h = to_duty-within z h

to_neutral :
    (a z : ℤ) (d e : ℕ)
    → pos d ≡ pos 32768 +ℤ (a +ℤ z)
    → pos e ≡ pos 32768 +ℤ z
    → pos d -ℤ pos e ≡ a
to_neutral a z d e h k = rw (h, k) (omega int_laws)

duties-IsPure :
    (c : ModCycleConfig) (v : Refs)
    → c.scheme ≡ mod_scheme_svpwm3d
    → nat_abs c.dt_comp_q15 ≡ 0
    → IsWithin v.v0
    → IsWithin v.v1
    → IsWithin v.v2
    → IsPure v (three_phase_duties c v (continuous_svm_zss v))
unfolding three_phase_duties
duties-IsPure c v s off w0 w1 w2 =
    let h = within-IsLinear v w0 w1 w2 in
    let e = envelope v h in
    let z = continuous_svm_zss v in
    let n = neutral_leg z (zss-IsWithin v w0 w1 w2) in
    let leg = λ (x : ℤ) (up : x ≤ℤ mx v) (low : mn v ≤ℤ x).
      uncompensated_leg x z c.dt_comp_q15 off (leg-IsWithin v x h up low) in
    simp s (record {
      a = to_neutral v.v0 z _ _ (leg v.v0 e.a0 e.b0) n;
      b = to_neutral v.v1 z _ _ (leg v.v1 e.a1 e.b1) n;
      c = to_neutral v.v2 z _ _ (leg v.v2 e.a2 e.b2) n;
    })

module _ (lut : ℕ → ℤ) (phase index_q15 : ℕ) (c : ModCycleConfig) (plans : ℕ → CellPlan) where
  abbrev refs : Refs
  refs = three_phase_scaled_refs lut phase index_q15

  -- Four legs without dead-time compensation, and references within the rails: the voltage from each
  -- phase to the neutral leg is the reference itself.
  pub neutral-IsPure :
      c.scheme ≡ mod_scheme_svpwm3d
      → nat_abs c.dt_comp_q15 ≡ 0
      → IsWithin refs.v0
      → IsWithin refs.v1
      → IsWithin refs.v2
      → IsPure refs (modulation_cycle_duties lut phase index_q15 c plans)
  neutral-IsPure s off w0 w1 w2 =
      rw (centred_cycle lut phase index_q15 c plans (inr s)) (duties-IsPure c refs s off w0 w1 w2)
