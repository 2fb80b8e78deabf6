-- ===== src/Modulation/Pipeline/Aligned.antt =====
-- The line-to-line voltages of the discontinuous variants that always clamp to one rail.
use teg.Prelude.{ℕ, ◌≡◌, ◌⊎◌, inl, inr, refl, arith}
use teg.Prelude.Int.{ℤ, pos, negsuc, ◌+ℤ◌, ◌-ℤ◌, ◌≤ℤ◌, int_laws, nat_abs}
use teg.Modulation.{mod_scheme_dpwm, CellPlan}
use teg.Modulation.Pipeline.{
  Refs, at, lowest, highest, dpwm_min, dpwm_max, dpwm_zss, ModCycleConfig, three_phase_scaled_refs,
  three_phase_duties, modulation_cycle_duties,
}
use teg.Modulation.Pipeline.Saturate.{IsWithin}
use teg.Modulation.Pipeline.Centred.{IsLinear, IsLineToLine, within-IsLineToLine, three_phase_cycle}
use teg.Modulation.Pipeline.Clamped.{dpwm_cycle_zss}

-- No reference is below x, and none is further above it than the rails are apart.
record IsBottom (v : Refs) (x : ℤ) : Type 0 where
  a : x ≤ℤ v.v0
  b : x ≤ℤ v.v1
  c : x ≤ℤ v.v2
  a' : v.v0 ≤ℤ x +ℤ pos 65534
  b' : v.v1 ≤ℤ x +ℤ pos 65534
  c' : v.v2 ≤ℤ x +ℤ pos 65534

record IsTop (v : Refs) (x : ℤ) : Type 0 where
  a : v.v0 ≤ℤ x
  b : v.v1 ≤ℤ x
  c : v.v2 ≤ℤ x
  a' : x ≤ℤ v.v0 +ℤ pos 65534
  b' : x ≤ℤ v.v1 +ℤ pos 65534
  c' : x ≤ℤ v.v2 +ℤ pos 65534

lowest-IsBottom : (v : Refs) → IsLinear v → IsBottom v (at v (lowest v))
unfolding lowest ◌+ℤ◌
lowest-IsBottom v h = record {
  a = ground arith;
  b = ground arith;
  c = ground arith;
  a' = ground (arith, h.ab, h.ac);
  b' = ground (arith, h.ba, h.bc);
  c' = ground (arith, h.ca, h.cb);
}

highest-IsTop : (v : Refs) → IsLinear v → IsTop v (at v (highest v))
unfolding highest ◌+ℤ◌
highest-IsTop v h = record {
  a = ground arith;
  b = ground arith;
  c = ground arith;
  a' = ground (arith, h.ba, h.ca);
  b' = ground (arith, h.ab, h.cb);
  c' = ground (arith, h.ac, h.bc);
}

from_bottom : (x l : ℤ) → l ≤ℤ x → x ≤ℤ l +ℤ pos 65534 → IsWithin (x +ℤ (negsuc 32766 -ℤ l))
from_bottom x l h k = record { above = omega int_laws; under = omega int_laws }

from_top : (x l : ℤ) → x ≤ℤ l → l ≤ℤ x +ℤ pos 65534 → IsWithin (x +ℤ (pos 32767 -ℤ l))
from_top x l h k = record { above = omega int_laws; under = omega int_laws }

module _ (c : ModCycleConfig) (v : Refs) (off : nat_abs c.dt_comp_q15 ≡ 0) (h : IsLinear v) where
  min-IsLineToLine : IsLineToLine v (three_phase_duties c v (negsuc 32766 -ℤ at v (lowest v)))
  min-IsLineToLine =
      let l = at v (lowest v) in
      let e = lowest-IsBottom v h in
      within-IsLineToLine c v (negsuc 32766 -ℤ l) off (from_bottom v.v0 l e.a e.a')
        (from_bottom v.v1 l e.b e.b') (from_bottom v.v2 l e.c e.c')

  max-IsLineToLine : IsLineToLine v (three_phase_duties c v (pos 32767 -ℤ at v (highest v)))
  max-IsLineToLine =
      let l = at v (highest v) in
      let e = highest-IsTop v h in
      within-IsLineToLine c v (pos 32767 -ℤ l) off (from_top v.v0 l e.a e.a')
        (from_top v.v1 l e.b e.b') (from_top v.v2 l e.c e.c')

module _ (lut : ℕ → ℤ) (phase index_q15 : ℕ) (c : ModCycleConfig) (plans : ℕ → CellPlan) where
  abbrev refs : Refs
  refs = three_phase_scaled_refs lut phase index_q15

  min_zss :
      c.dpwm_variant ≡ dpwm_min
      → dpwm_zss lut phase c.dpwm_clamp_phase c.dpwm_variant refs
        ≡ negsuc 32766 -ℤ at refs (lowest refs)
  unfolding dpwm_zss
  min_zss s = simp s refl

  max_zss :
      c.dpwm_variant ≡ dpwm_max
      → dpwm_zss lut phase c.dpwm_clamp_phase c.dpwm_variant refs
        ≡ pos 32767 -ℤ at refs (highest refs)
  unfolding dpwm_zss
  max_zss s = simp s refl

  -- The discontinuous variants that clamp to one rail, without dead-time compensation: where no two
  -- scaled references are further apart than the rails, the line-to-line voltages are those of the
  -- references, to the last bit.
  pub dpwm-IsLineToLine :
      c.scheme ≡ mod_scheme_dpwm
      → (c.dpwm_variant ≡ dpwm_min) ⊎ (c.dpwm_variant ≡ dpwm_max)
      → nat_abs c.dt_comp_q15 ≡ 0
      → IsLinear refs
      → IsLineToLine refs (modulation_cycle_duties lut phase index_q15 c plans)
  dpwm-IsLineToLine s (inl m) off h =
      rw
        (
          three_phase_cycle lut phase index_q15 c plans (inr (inl s)),
          dpwm_cycle_zss lut phase index_q15 c plans s,
          min_zss m,
        )
        (min-IsLineToLine c refs off h)
  dpwm-IsLineToLine s (inr m) off h =
      rw
        (
          three_phase_cycle lut phase index_q15 c plans (inr (inl s)),
          dpwm_cycle_zss lut phase index_q15 c plans s,
          max_zss m,
        )
        (max-IsLineToLine c refs off h)
