-- ===== src/Config/Validate/Safe.antt =====
-- The configuration that validation leaves.
use teg.Prelude.{◌<◌, ℕ, ◌+◌, ◌≤◌, min, ◌≡◌, refl, sym, ap, ◌∙◌, inl, inr, Bool, true, false, arith}
use teg.Pair.Submodule
use teg.Config.Types.{
  SubmoduleConfig, Module2Config, CurrentLimitConfig, MeterConfig, PllConfig, MainConfig,
}
use teg.Config.Checks.{◌then_check◌, check_current_limit, check_pll_ranges}
use teg.Config.Checks.Settled.{IsFixed, IsCell, check_fixed-IsFixed, check_cell-IsCell}
use teg.Config.Checks.Ranges.{
  IsGuard, check_current_limit-IsGuard, IsLoop, check_pll_ranges-IsLoop, IsTracker,
  check_mppt-IsTracker, check_mppt-interval, check_mppt-short, IsBroker, check_mqtt-IsBroker,
  IsMonitor, check_power_mon-IsMonitor,
}
use teg.Config.Validate.{
  modulates, carrier_interrupt_required, carrier_ceiling, carrier_was_invalid, check_carrier,
  check_nyquist, check_cells, check_dead_time_compensation, check_dither, check_module2,
  exclude_pll, check_meter, validate_config,
}
use teg.Config.Validate.Parts.{
  IsEngine, ceiling_bounds, check_module2-IsEngine, IsAllowed, exclude_pll-IsAllowed,
  exclude_pll-same,
}

module _ (meter_calibration_valid : ℕ → ℕ → ℕ → ℕ → Bool) where
  abbrev pub calibrated : MeterConfig → Bool
  calibrated s =
      meter_calibration_valid s.voltage_zero_millivolts s.current_zero_millivolts
        s.current_milliamp_per_volt s.voltage_ratio_milli

  -- Every section is in range, the cells follow the carrier, and the features that exclude each
  -- other do not run together.
  pub record IsSafe (c : MainConfig) : Type 0 where
    pub sm13 : IsFixed Submodule.sm13 c.pwm.tm1.sm13
    pub sm31 : IsFixed Submodule.sm31 c.pwm.tm3.sm31
    pub sm40 : IsFixed Submodule.sm40 c.pwm.tm4.sm40
    pub sm41 : IsFixed Submodule.sm41 c.pwm.tm4.sm41
    pub sm42 : IsFixed Submodule.sm42 c.pwm.tm4.sm42
    pub sm20 : IsCell c.pwm.tm2.spwm_carrier_frequency Submodule.sm20 c.pwm.tm2.sm20
    pub sm21 : IsCell c.pwm.tm2.spwm_carrier_frequency Submodule.sm21 c.pwm.tm2.sm21
    pub sm22 : IsCell c.pwm.tm2.spwm_carrier_frequency Submodule.sm22 c.pwm.tm2.sm22
    pub sm23 : IsCell c.pwm.tm2.spwm_carrier_frequency Submodule.sm23 c.pwm.tm2.sm23
    pub engine : IsEngine (carrier_ceiling c) c.pwm.tm2
    pub unsynchronised : c.pwm.sync_pwm ≡ false
    pub guard : IsGuard c.current_limit
    pub loop : IsLoop c.pll
    pub allowed : IsAllowed c.feedback.enabled c.pwm.tm2 c.pll
    pub undithered : c.pll.enabled ≡ true → c.pwm.tm2.carrier_dither_mode ≡ 0
    pub tracker : IsTracker c.feedback.enabled c.mppt
    pub cadence : min (2100 + c.pwm.tm2.soft_start_ms) 60000 ≤ c.mppt.interval_ms
    pub broker : IsBroker c.mqtt
    pub meter : calibrated c.meter ≡ true
    pub monitor : IsMonitor c.power_mon

  pub check_meter-calibrated :
      meter_calibration_valid 1650 1650 10000 1000 ≡ true
      → (s : MeterConfig) → calibrated (check_meter meter_calibration_valid s).1 ≡ true
  unfolding check_meter
  check_meter-calibrated h s = ground arith

  check_meter-enabled :
      (s : MeterConfig) → (check_meter meter_calibration_valid s).1.enabled ≡ s.enabled
  unfolding check_meter
  check_meter-enabled s = ground arith

check_current_limit-trip :
    (s : CurrentLimitConfig)
    → ((check_current_limit s).1.enabled ≡ s.enabled)
      × ((check_current_limit s).1.cycle_by_cycle ≡ s.cycle_by_cycle)
unfolding check_current_limit
check_current_limit-trip s = ground arith

check_pll_ranges-enabled : (s : PllConfig) → (check_pll_ranges s).1.enabled ≡ s.enabled
unfolding check_pll_ranges
check_pll_ranges-enabled s = ground arith

-- The modulation may go off.
check_module2-modulates :
    (ceiling : ℕ) (invalid : Bool) (s : Module2Config)
    → modulates (check_module2 ceiling invalid s).1 ≡ true
    → modulates s ≡ true
unfolding check_module2 check_carrier check_nyquist check_cells check_dead_time_compensation
check_module2-modulates ceiling invalid s h = ground arith

check_module2-soft_start :
    (ceiling : ℕ) (invalid : Bool) (s : Module2Config)
    → (check_module2 ceiling invalid s).1.soft_start_ms ≡ s.soft_start_ms
unfolding check_module2 check_carrier check_nyquist check_cells check_dead_time_compensation
check_module2-soft_start ceiling invalid s = ground arith

-- Where fewer features need the interrupt, the carrier may be as fast at least.
ceiling_mono :
    (b c : MainConfig)
    → (modulates c.pwm.tm2 ≡ true → modulates b.pwm.tm2 ≡ true)
    → c.capture ≡ b.capture
    → c.meter.enabled ≡ b.meter.enabled
    → (c.pll.enabled ≡ true → b.pll.enabled ≡ true)
    → c.current_limit.enabled ≡ b.current_limit.enabled
    → c.current_limit.cycle_by_cycle ≡ b.current_limit.cycle_by_cycle
    → c.thermal ≡ b.thermal
    → carrier_ceiling b ≤ carrier_ceiling c
unfolding carrier_ceiling carrier_interrupt_required
ceiling_mono b c tm2 capture meter pll limit cycle thermal = ground arith

abbrev with_cells :
    Module2Config
    → SubmoduleConfig
    → SubmoduleConfig
    → SubmoduleConfig
    → SubmoduleConfig
    → Module2Config
with_cells s a b c d = record s { sm20 = a; sm21 = b; sm22 = c; sm23 = d }

module _ (s : Module2Config) (a b c d : SubmoduleConfig) (on : Bool) where
  abbrev checked : Module2Config
  checked = with_cells (check_dither on s).1 a b c d

  dither-IsEngine : (low high : ℕ) → low ≤ high → IsEngine low s → IsEngine high checked
  unfolding check_dither
  dither-IsEngine low high le h = record {
    slow = ground (arith, h.slow);
    fast = ground (arith, h.fast);
    moving = λ m t. ground (arith, h.moving);
    sampled = λ m t. ground (arith, h.sampled);
    one = ground (arith, h.one);
    four = ground (arith, h.four);
    uncompensated = ground (arith, h.uncompensated);
  }

  dither-IsAllowed :
      (feedback : Bool) (p : PllConfig) → IsAllowed feedback s p → IsAllowed feedback checked p
  unfolding check_dither
  dither-IsAllowed feedback p h = record {
    feedback_off = h.feedback_off;
    phase_driven = λ e. ground (arith, h.phase_driven);
    above = λ e. ground (arith, h.above);
    below = λ e. ground (arith, h.below);
    carrier = λ e. ground (arith, h.carrier);
    ratio = λ e. ground (arith, h.ratio);
  }

  dither-same :
      (checked.spwm_carrier_frequency ≡ s.spwm_carrier_frequency)
      × (checked.soft_start_ms ≡ s.soft_start_ms)
      × (modulates checked ≡ modulates s)
      × (on ≡ true → checked.carrier_dither_mode ≡ 0)
  unfolding check_dither
  dither-same = (ground arith, ground arith, ground arith, λ e. ground arith)

module _ (feedback invalid : Bool) (tm2 : Module2Config) (p : PllConfig) where
  abbrev checked_pll : PllConfig
  checked_pll = (check_pll_ranges p then_check exclude_pll feedback invalid tm2).1

  checked_pll-enabled : checked_pll.enabled ≡ true → p.enabled ≡ true
  checked_pll-enabled h =
      sym (check_pll_ranges-enabled p)
      ∙ elim (exclude_pll-same feedback invalid tm2 (check_pll_ranges p).1) [
        | inl e ↦ sym (ap (λ (q : PllConfig). q.enabled) e) ∙ h
        | inr e ↦ absurd (let off = ap (λ (q : PllConfig). q.enabled) e in ground arith)
      ]

  checked_pll-IsLoop : IsLoop checked_pll
  checked_pll-IsLoop =
      let kept = check_pll_ranges-IsLoop p in
      elim (exclude_pll-same feedback invalid tm2 (check_pll_ranges p).1) [
        | inl e ↦ rw e kept
        | inr e ↦ rw e (record {
          positive = kept.positive;
          window = kept.window;
          top = kept.top;
          phase = kept.phase;
          narrow = kept.narrow;
          wide = kept.wide;
          zero_level = kept.zero_level;
          floor = kept.floor;
          ceiling = kept.ceiling;
        })
      ]

module _ (meter_calibration_valid : ℕ → ℕ → ℕ → ℕ → Bool) (c : MainConfig) where
  abbrev validated : MainConfig
  validated = (validate_config meter_calibration_valid c).1

  abbrev tm2 : Module2Config
  tm2 = (check_module2 (carrier_ceiling c) (carrier_was_invalid c) c.pwm.tm2).1

  abbrev pll : PllConfig
  pll = checked_pll c.feedback.enabled (carrier_was_invalid c) tm2 c.pll

  same :
      (validated.pwm.tm2.spwm_carrier_frequency ≡ tm2.spwm_carrier_frequency)
      × (validated.pwm.tm2.soft_start_ms ≡ tm2.soft_start_ms)
      × (modulates validated.pwm.tm2 ≡ modulates tm2)
      × (validated.pll.enabled ≡ true → validated.pwm.tm2.carrier_dither_mode ≡ 0)
  unfolding validate_config
  same =
      dither-same tm2 validated.pwm.tm2.sm20 validated.pwm.tm2.sm21 validated.pwm.tm2.sm22
        validated.pwm.tm2.sm23 pll.enabled

  validated-ceiling : carrier_ceiling c ≤ carrier_ceiling validated
  unfolding validate_config
  validated-ceiling =
      ceiling_mono c validated
        (λ e.
          check_module2-modulates (carrier_ceiling c) (carrier_was_invalid c) c.pwm.tm2
            (sym same.2 ∙ e))
        refl (check_meter-enabled meter_calibration_valid c.meter)
        (checked_pll-enabled c.feedback.enabled (carrier_was_invalid c) tm2 c.pll)
        (check_current_limit-trip c.current_limit).0 (check_current_limit-trip c.current_limit).1
        refl

  pub validate-soft_start : validated.pwm.tm2.soft_start_ms ≡ c.pwm.tm2.soft_start_ms
  validate-soft_start =
      same.1 ∙ check_module2-soft_start (carrier_ceiling c) (carrier_was_invalid c) c.pwm.tm2

  -- Whatever the document asked for, where the default calibration of the meter is valid: validation
  -- leaves every section that it checks in range, the carrier below its ceiling and the cells of the
  -- engine at the carrier, and no two features enabled that exclude each other.
  pub validate-IsSafe :
      meter_calibration_valid 1650 1650 10000 1000 ≡ true → IsSafe meter_calibration_valid validated
  unfolding validate_config carrier_was_invalid
  validate-IsSafe h = record {
    sm13 = check_fixed-IsFixed Submodule.sm13 c.pwm.tm1.sm13;
    sm31 = check_fixed-IsFixed Submodule.sm31 c.pwm.tm3.sm31;
    sm40 = check_fixed-IsFixed Submodule.sm40 c.pwm.tm4.sm40;
    sm41 = check_fixed-IsFixed Submodule.sm41 c.pwm.tm4.sm41;
    sm42 = check_fixed-IsFixed Submodule.sm42 c.pwm.tm4.sm42;
    sm20 = rw same.0 (check_cell-IsCell Submodule.sm20 tm2.sm20 tm2.spwm_carrier_frequency);
    sm21 = rw same.0 (check_cell-IsCell Submodule.sm21 tm2.sm21 tm2.spwm_carrier_frequency);
    sm22 = rw same.0 (check_cell-IsCell Submodule.sm22 tm2.sm22 tm2.spwm_carrier_frequency);
    sm23 = rw same.0 (check_cell-IsCell Submodule.sm23 tm2.sm23 tm2.spwm_carrier_frequency);
    engine =
        dither-IsEngine tm2 validated.pwm.tm2.sm20 validated.pwm.tm2.sm21 validated.pwm.tm2.sm22
          validated.pwm.tm2.sm23 pll.enabled (carrier_ceiling c) (carrier_ceiling validated)
          validated-ceiling
          (check_module2-IsEngine (carrier_ceiling c) c.pwm.tm2 (ceiling_bounds c).0);
    unsynchronised = refl;
    guard = check_current_limit-IsGuard c.current_limit;
    loop = checked_pll-IsLoop c.feedback.enabled (carrier_was_invalid c) tm2 c.pll;
    allowed =
        dither-IsAllowed tm2 validated.pwm.tm2.sm20 validated.pwm.tm2.sm21 validated.pwm.tm2.sm22
          validated.pwm.tm2.sm23 pll.enabled c.feedback.enabled pll
          (exclude_pll-IsAllowed c.feedback.enabled (carrier_was_invalid c) tm2
            (check_pll_ranges c.pll).1);
    undithered = same.3;
    tracker = check_mppt-IsTracker tm2.soft_start_ms c.feedback.enabled c.mppt;
    cadence = rw same.1 (check_mppt-interval tm2.soft_start_ms c.feedback.enabled c.mppt);
    broker = check_mqtt-IsBroker c.mqtt;
    meter = check_meter-calibrated meter_calibration_valid h c.meter;
    monitor = check_power_mon-IsMonitor c.power_mon;
  }

  -- Where the soft start takes longer than 57900 ms, a cadence of the tracker that is too short for the
  -- ramp is corrected to 60000 ms, which is too short for it still.
  pub validate-uncovered :
      57900 < c.pwm.tm2.soft_start_ms
      → c.mppt.interval_ms < 2100 + c.pwm.tm2.soft_start_ms
      → (validated.mppt.interval_ms ≡ 60000)
        × (validated.mppt.interval_ms < 2100 + validated.pwm.tm2.soft_start_ms)
  unfolding validate_config
  validate-uncovered long short =
      let kept = check_module2-soft_start (carrier_ceiling c) (carrier_was_invalid c) c.pwm.tm2 in
      let cut =
        check_mppt-short tm2.soft_start_ms c.feedback.enabled c.mppt (omega (arith, kept))
          (omega (arith, kept)) in
      (cut, omega (arith, cut, same.1, kept))
