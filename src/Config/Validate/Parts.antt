-- ===== src/Config/Validate/Parts.antt =====
-- What the checks of the modulation engine and of the PLL leave.
use teg.Prelude.{ℕ, ◌*◌, ◌/◌, ◌%◌, ◌≤◌, ◌≡◌, ◌⊎◌, Bool, true, false, arith}
use teg.Config.Types.{Module2Config, PllConfig, MainConfig}
use teg.Config.Checks.{outside}
use teg.Config.Validate.{
  modulates, carrier_ceiling, check_carrier, stepped, check_nyquist, check_cells,
  check_dead_time_compensation, check_module2, exclude_pll,
}

-- An engine that may run: the carrier is at most `ceiling` and the reference below Nyquist.
pub record IsEngine (ceiling : ℕ) (s : Module2Config) : Type 0 where
  pub slow : 18 ≤ s.spwm_carrier_frequency
  pub fast : s.spwm_carrier_frequency ≤ ceiling
  pub moving : modulates s ≡ true → stepped s ≡ false → 1 ≤ s.spwm_modulation_frequency
  pub sampled :
      modulates s ≡ true
      → stepped s ≡ false
      → s.spwm_modulation_frequency ≤ s.spwm_carrier_frequency / 2
  pub one : 1 ≤ s.modulation_cells
  pub four : s.modulation_cells ≤ 4
  pub uncompensated : s.dead_time_compensation ≡ false

pub ceiling_bounds : (c : MainConfig) → (10000 ≤ carrier_ceiling c) × (carrier_ceiling c ≤ 1000000)
unfolding carrier_ceiling
ceiling_bounds c = ground arith

-- What the check of the carrier leaves, and what the one of the reference adds.
record IsCarried (ceiling : ℕ) (s : Module2Config) : Type 0 where
  slow : 18 ≤ s.spwm_carrier_frequency
  fast : s.spwm_carrier_frequency ≤ ceiling

record IsMoving (ceiling : ℕ) (s : Module2Config) : Type 0 where
  carried : IsCarried ceiling s
  moving : modulates s ≡ true → stepped s ≡ false → 1 ≤ s.spwm_modulation_frequency
  sampled :
      modulates s ≡ true
      → stepped s ≡ false
      → s.spwm_modulation_frequency ≤ s.spwm_carrier_frequency / 2

check_nyquist-IsMoving :
    (ceiling : ℕ) (s : Module2Config) → IsCarried ceiling s → IsMoving ceiling (check_nyquist s).1
unfolding check_nyquist
check_nyquist-IsMoving ceiling s h = record {
  carried = record { slow = ground (arith, h.slow); fast = ground (arith, h.fast) };
  moving = λ m t. ground arith;
  sampled = λ m t. ground arith;
}

rest-IsEngine :
    (ceiling : ℕ) (s : Module2Config)
    → IsMoving ceiling s
    → IsEngine ceiling (check_dead_time_compensation (check_cells s).1).1
unfolding check_cells check_dead_time_compensation
rest-IsEngine ceiling s h = record {
  slow = ground (arith, h.carried.slow);
  fast = ground (arith, h.carried.fast);
  moving = λ m t. ground (arith, h.moving);
  sampled = λ m t. ground (arith, h.sampled);
  one = ground arith;
  four = ground arith;
  uncompensated = ground arith;
}

module _ (ceiling : ℕ) (s : Module2Config) where
  abbrev invalid : Bool
  invalid = outside 18 ceiling s.spwm_carrier_frequency

  carried : 10000 ≤ ceiling → IsCarried ceiling (check_carrier ceiling invalid s).1
  unfolding check_carrier
  carried h = record { slow = ground arith; fast = ground arith }

  pub check_module2-IsEngine :
      10000 ≤ ceiling → IsEngine ceiling (check_module2 ceiling invalid s).1
  unfolding check_module2
  check_module2-IsEngine h =
      rest-IsEngine ceiling (check_nyquist (check_carrier ceiling invalid s).1).1
        (check_nyquist-IsMoving ceiling (check_carrier ceiling invalid s).1 (carried h))

  pub check_module2-settled : IsEngine ceiling s → check_module2 ceiling invalid s ≡ (false, s)
  unfolding check_module2 check_carrier check_nyquist check_cells check_dead_time_compensation
  check_module2-settled h =
      ground (arith, h.slow, h.fast, h.moving, h.sampled, h.one, h.four, h.uncompensated)

-- A PLL that runs is excluded by no rule.
pub record IsAllowed (feedback : Bool) (tm2 : Module2Config) (s : PllConfig) : Type 0 where
  pub feedback_off : s.enabled ≡ true → feedback ≡ false
  pub phase_driven : s.enabled ≡ true → stepped tm2 ≡ false
  pub above : s.enabled ≡ true → s.min_hz ≤ tm2.spwm_modulation_frequency
  pub below : s.enabled ≡ true → tm2.spwm_modulation_frequency ≤ s.max_hz
  pub carrier : s.enabled ≡ true → 1000 ≤ tm2.spwm_carrier_frequency
  pub ratio :
      s.enabled ≡ true
      → 18 * tm2.spwm_modulation_frequency % 4294967296 ≤ tm2.spwm_carrier_frequency

module _ (feedback invalid : Bool) (tm2 : Module2Config) (s : PllConfig) where
  pub exclude_pll-IsAllowed : IsAllowed feedback tm2 (exclude_pll feedback invalid tm2 s).1
  unfolding exclude_pll
  exclude_pll-IsAllowed = record {
    feedback_off = λ on. ground arith;
    phase_driven = λ on. ground arith;
    above = λ on. ground arith;
    below = λ on. ground arith;
    carrier = λ on. ground arith;
    ratio = λ on. ground arith;
  }

  pub exclude_pll-settled :
      IsAllowed feedback tm2 s → invalid ≡ false → exclude_pll feedback invalid tm2 s ≡ (false, s)
  unfolding exclude_pll
  exclude_pll-settled h e =
      ground (arith, h.feedback_off, h.phase_driven, h.above, h.below, h.carrier, h.ratio)

  -- Nothing but the switch changes, and it goes off only.
  pub exclude_pll-same :
      ((exclude_pll feedback invalid tm2 s).1 ≡ s)
      ⊎ ((exclude_pll feedback invalid tm2 s).1 ≡ record s { enabled = false })
  unfolding exclude_pll
  exclude_pll-same = ground arith
