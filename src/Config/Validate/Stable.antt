-- ===== src/Config/Validate/Stable.antt =====
-- A safe configuration is left alone by validation.
use teg.Prelude.{ℕ, ◌+◌, ◌≤◌, ◌≡◌, refl, sym, ap, ◌∙◌, Bool, true, false, arith}
use teg.Pair.Submodule
use teg.Config.Types.{Module2Config, MeterConfig, MainConfig}
use teg.Config.Checks.Settled.{check_fixed-settled, check_cell-settled}
use teg.Config.Checks.Ranges.{
  check_current_limit-settled, check_pll_ranges-settled, check_mppt-settled, check_mqtt-settled,
  check_power_mon-settled,
}
use teg.Config.Validate.{
  carrier_ceiling, carrier_was_invalid, check_dither, check_module2, check_meter, validate_config,
}
use teg.Config.Validate.Parts.{IsEngine, check_module2-settled, exclude_pll-settled}
use teg.Config.Validate.Safe.{validate-soft_start, calibrated, IsSafe, validate-IsSafe}

pub check_dither-settled :
    (on : Bool) (s : Module2Config)
    → (on ≡ true → s.carrier_dither_mode ≡ 0)
    → check_dither on s ≡ (false, s)
unfolding check_dither
check_dither-settled on s h = ground (arith, h)

pub engine-carrier_was_invalid :
    (c : MainConfig) → IsEngine (carrier_ceiling c) c.pwm.tm2 → carrier_was_invalid c ≡ false
unfolding carrier_was_invalid
engine-carrier_was_invalid c h = ground (arith, h.slow, h.fast)

pub check_module2-stays :
    (c : MainConfig)
    → IsEngine (carrier_ceiling c) c.pwm.tm2
    → check_module2 (carrier_ceiling c) false c.pwm.tm2 ≡ (false, c.pwm.tm2)
unfolding carrier_was_invalid
check_module2-stays c h =
    ap (λ (b : Bool). check_module2 (carrier_ceiling c) b c.pwm.tm2)
      (sym (engine-carrier_was_invalid c h))
    ∙ check_module2-settled (carrier_ceiling c) c.pwm.tm2 h

module _ (meter_calibration_valid : ℕ → ℕ → ℕ → ℕ → Bool) where
  pub check_meter-settled :
      (s : MeterConfig)
      → calibrated meter_calibration_valid s ≡ true
      → check_meter meter_calibration_valid s ≡ (false, s)
  unfolding check_meter
  check_meter-settled s h = ground arith

  -- A safe configuration whose tracker waits for the index ramp is accepted as it is, and nothing
  -- is reported as corrected.
  pub safe-validate :
      (c : MainConfig)
      → IsSafe meter_calibration_valid c
      → 2100 + c.pwm.tm2.soft_start_ms ≤ c.mppt.interval_ms
      → validate_config meter_calibration_valid c ≡ (false, c)
  unfolding validate_config
  safe-validate c h ramp =
      rw
        (
          engine-carrier_was_invalid c h.engine,
          check_module2-stays c h.engine,
          check_fixed-settled Submodule.sm13 c.pwm.tm1.sm13 h.sm13,
          check_fixed-settled Submodule.sm31 c.pwm.tm3.sm31 h.sm31,
          check_fixed-settled Submodule.sm40 c.pwm.tm4.sm40 h.sm40,
          check_fixed-settled Submodule.sm41 c.pwm.tm4.sm41 h.sm41,
          check_fixed-settled Submodule.sm42 c.pwm.tm4.sm42 h.sm42,
          check_cell-settled Submodule.sm20 c.pwm.tm2.sm20 c.pwm.tm2.spwm_carrier_frequency h.sm20,
          check_cell-settled Submodule.sm21 c.pwm.tm2.sm21 c.pwm.tm2.spwm_carrier_frequency h.sm21,
          check_cell-settled Submodule.sm22 c.pwm.tm2.sm22 c.pwm.tm2.spwm_carrier_frequency h.sm22,
          check_cell-settled Submodule.sm23 c.pwm.tm2.sm23 c.pwm.tm2.spwm_carrier_frequency h.sm23,
          check_current_limit-settled c.current_limit h.guard,
          check_pll_ranges-settled c.pll h.loop,
          exclude_pll-settled c.feedback.enabled false c.pwm.tm2 c.pll h.allowed refl,
          check_dither-settled c.pll.enabled c.pwm.tm2 h.undithered,
          check_mppt-settled c.pwm.tm2.soft_start_ms c.feedback.enabled c.mppt h.tracker ramp,
          check_mqtt-settled c.mqtt h.broker,
          check_meter-settled c.meter h.meter,
          check_power_mon-settled c.power_mon h.monitor,
          h.unsynchronised,
        )
        refl

  -- Validation is done after one run: where the index ramp is at most 57900 ms, a second run
  -- corrects nothing. The default calibration of the meter is to be valid.
  pub validate-twice :
      (c : MainConfig)
      → meter_calibration_valid 1650 1650 10000 1000 ≡ true
      → c.pwm.tm2.soft_start_ms ≤ 57900
      → validate_config meter_calibration_valid (validate_config meter_calibration_valid c).1
        ≡ (false, (validate_config meter_calibration_valid c).1)
  validate-twice c h ramp =
      let safe = validate-IsSafe meter_calibration_valid c h in
      safe-validate (validate_config meter_calibration_valid c).1 safe
        (omega (arith, safe.cadence, validate-soft_start meter_calibration_valid c))
