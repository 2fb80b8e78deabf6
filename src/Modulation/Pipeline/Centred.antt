-- ===== src/Modulation/Pipeline/Centred.antt =====
-- The line-to-line voltages of the three-phase schemes.
use teg.Prelude.{ℕ, ◌+◌, ◌*◌, ◌≤◌, ◌≡◌, ◌⊎◌, inl, inr, List, refl, arith, get_or}
use teg.Prelude.Int.{
  ℤ, pos, ◌+ℤ◌, ◌-ℤ◌, ◌≤ℤ◌, tdiv, int_laws, pos_part, neg_part, nat_abs, +ℤ_parts,
}
use teg.Modulation.{mod_scheme_svpwm, mod_scheme_dpwm, mod_scheme_svpwm3d, CellPlan}
use teg.Modulation.Pipeline.{
  compensate, duty_from_scaled, Refs, max_ℤ, min_ℤ, continuous_svm_zss, ModCycleConfig,
  three_phase_scaled_refs, three_phase_duties, cycle_zss, modulation_cycle_duties,
}
use teg.Modulation.Pipeline.Saturate.{IsWithin, to_duty-within}

-- No two references are further apart than the rails.
pub record IsLinear (v : Refs) : Type 0 where
  pub ab : v.v0 ≤ℤ v.v1 +ℤ pos 65534
  pub ba : v.v1 ≤ℤ v.v0 +ℤ pos 65534
  pub bc : v.v1 ≤ℤ v.v2 +ℤ pos 65534
  pub cb : v.v2 ≤ℤ v.v1 +ℤ pos 65534
  pub ca : v.v2 ≤ℤ v.v0 +ℤ pos 65534
  pub ac : v.v0 ≤ℤ v.v2 +ℤ pos 65534

-- The duties differ from leg to leg as the references do.
pub record IsLineToLine (v : Refs) (duties : List ℕ) : Type 0 where
  pub ab : pos (get_or duties 0 0) -ℤ pos (get_or duties 1 0) ≡ v.v0 -ℤ v.v1
  pub bc : pos (get_or duties 1 0) -ℤ pos (get_or duties 2 0) ≡ v.v1 -ℤ v.v2
  pub ca : pos (get_or duties 2 0) -ℤ pos (get_or duties 0 0) ≡ v.v2 -ℤ v.v0

-- Half of the negated sum, to within one half.
pub half-lem :
    (s : ℤ)
    → (2 * pos_part (tdiv (pos 0 -ℤ s) 2) + pos_part s
        ≤ 2 * neg_part (tdiv (pos 0 -ℤ s) 2) + neg_part s + 1)
      × (2 * neg_part (tdiv (pos 0 -ℤ s) 2) + neg_part s
          ≤ 2 * pos_part (tdiv (pos 0 -ℤ s) 2) + pos_part s + 1)
unfolding tdiv ◌-ℤ◌
half-lem s = (ground arith, ground arith)

pub record IsEnvelope (v : Refs) (mx mn : ℤ) : Type 0 where
  pub a0 : v.v0 ≤ℤ mx
  pub a1 : v.v1 ≤ℤ mx
  pub a2 : v.v2 ≤ℤ mx
  pub b0 : mn ≤ℤ v.v0
  pub b1 : mn ≤ℤ v.v1
  pub b2 : mn ≤ℤ v.v2
  pub apart : mx ≤ℤ mn +ℤ pos 65534

abbrev pub mx : Refs → ℤ
mx v = max_ℤ (max_ℤ v.v0 v.v1) v.v2

abbrev pub mn : Refs → ℤ
mn v = min_ℤ (min_ℤ v.v0 v.v1) v.v2

pub envelope : (v : Refs) → IsLinear v → IsEnvelope v (mx v) (mn v)
unfolding max_ℤ min_ℤ ◌+ℤ◌
envelope v h = record {
  a0 = ground arith;
  a1 = ground arith;
  a2 = ground arith;
  b0 = ground arith;
  b1 = ground arith;
  b2 = ground arith;
  apart = ground (arith, h.ab, h.ba, h.bc, h.cb, h.ca, h.ac);
}

pub leg-IsWithin :
    (v : Refs) (x : ℤ) → IsLinear v → x ≤ℤ mx v → mn v ≤ℤ x → IsWithin (x +ℤ continuous_svm_zss v)
unfolding continuous_svm_zss
leg-IsWithin v x h up low =
    let apart = (envelope v h).apart in
    let s = mx v +ℤ mn v in
    let half = half-lem s in
    record {
      above = omega (
        arith,
        apart,
        half.0,
        half.1,
        +ℤ_parts (mx v) (mn v),
        +ℤ_parts x (tdiv (pos 0 -ℤ s) 2),
        +ℤ_parts (mn v) (pos 65534),
      );
      under = omega (
        arith,
        apart,
        half.0,
        half.1,
        +ℤ_parts (mx v) (mn v),
        +ℤ_parts x (tdiv (pos 0 -ℤ s) 2),
        +ℤ_parts (mn v) (pos 65534),
      );
    }

pub uncompensated_leg :
    (x z comp : ℤ)
    → nat_abs comp ≡ 0
    → IsWithin (x +ℤ z)
    → pos (duty_from_scaled (x +ℤ z) comp x) ≡ pos 32768 +ℤ (x +ℤ z)
unfolding duty_from_scaled compensate
uncompensated_leg x z comp off h = rw off (to_duty-within (x +ℤ z) h)

-- A shift that the legs share drops out.
pub same_shift :
    (a b z : ℤ) (d e : ℕ)
    → pos d ≡ pos 32768 +ℤ (a +ℤ z)
    → pos e ≡ pos 32768 +ℤ (b +ℤ z)
    → pos d -ℤ pos e ≡ a -ℤ b
same_shift a b z d e h k = rw (h, k) (omega int_laws)

-- Duties that are all within the rails give the line-to-line voltages of the references.
pub within-IsLineToLine :
    (c : ModCycleConfig) (v : Refs) (z : ℤ)
    → nat_abs c.dt_comp_q15 ≡ 0
    → IsWithin (v.v0 +ℤ z)
    → IsWithin (v.v1 +ℤ z)
    → IsWithin (v.v2 +ℤ z)
    → IsLineToLine v (three_phase_duties c v z)
unfolding three_phase_duties
within-IsLineToLine c v z off w0 w1 w2 =
    let leg = λ (x : ℤ) (w : IsWithin (x +ℤ z)). uncompensated_leg x z c.dt_comp_q15 off w in
    record {
      ab = same_shift v.v0 v.v1 z _ _ (leg v.v0 w0) (leg v.v1 w1);
      bc = same_shift v.v1 v.v2 z _ _ (leg v.v1 w1) (leg v.v2 w2);
      ca = same_shift v.v2 v.v0 z _ _ (leg v.v2 w2) (leg v.v0 w0);
    }

pub centred-IsLineToLine :
    (c : ModCycleConfig) (v : Refs)
    → nat_abs c.dt_comp_q15 ≡ 0
    → IsLinear v
    → IsLineToLine v (three_phase_duties c v (continuous_svm_zss v))
centred-IsLineToLine c v off h =
    let e = envelope v h in
    within-IsLineToLine c v (continuous_svm_zss v) off (leg-IsWithin v v.v0 h e.a0 e.b0)
      (leg-IsWithin v v.v1 h e.a1 e.b1) (leg-IsWithin v v.v2 h e.a2 e.b2)

module _ (lut : ℕ → ℤ) (phase index_q15 : ℕ) (c : ModCycleConfig) (plans : ℕ → CellPlan) where
  abbrev pub refs : Refs
  refs = three_phase_scaled_refs lut phase index_q15

  pub three_phase_cycle :
      (c.scheme ≡ mod_scheme_svpwm) ⊎ (c.scheme ≡ mod_scheme_dpwm) ⊎ (c.scheme ≡ mod_scheme_svpwm3d)
      → modulation_cycle_duties lut phase index_q15 c plans
        ≡ three_phase_duties c refs (cycle_zss lut phase c refs)
  unfolding modulation_cycle_duties
  three_phase_cycle s = ground arith

  centred_zss :
      (c.scheme ≡ mod_scheme_svpwm) ⊎ (c.scheme ≡ mod_scheme_svpwm3d)
      → cycle_zss lut phase c refs ≡ continuous_svm_zss refs
  unfolding cycle_zss
  centred_zss s = ground arith

  pub centred_cycle :
      (c.scheme ≡ mod_scheme_svpwm) ⊎ (c.scheme ≡ mod_scheme_svpwm3d)
      → modulation_cycle_duties lut phase index_q15 c plans
        ≡ three_phase_duties c refs (continuous_svm_zss refs)
  centred_cycle s =
      let cycle = three_phase_cycle (elim s [ inl h ↦ inl h | inr h ↦ inr (inr h) ]) in
      rw (cycle, centred_zss s) refl

  -- Space-vector modulation, with three legs or four and without dead-time compensation: where no
  -- two scaled references are further apart than the rails, the line-to-line voltages are those of
  -- the references, to the last bit.
  pub svpwm-IsLineToLine :
      (c.scheme ≡ mod_scheme_svpwm) ⊎ (c.scheme ≡ mod_scheme_svpwm3d)
      → nat_abs c.dt_comp_q15 ≡ 0
      → IsLinear refs
      → IsLineToLine refs (modulation_cycle_duties lut phase index_q15 c plans)
  svpwm-IsLineToLine s off h = rw (centred_cycle s) (centred-IsLineToLine c refs off h)
