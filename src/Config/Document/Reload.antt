-- ===== src/Config/Document/Reload.antt =====
-- The configuration that is saved, loaded again and validated.
use teg.Prelude.{ℕ, ◌+◌, ◌≤◌, ◌≡◌, refl, ap, ◌∙◌, Bool, false, arith}
use teg.Config.Types.{default_modulation_carrier_hz, SubmoduleConfig, MainConfig}
use teg.Pair.Submodule
use teg.Config.Json.{JsonLibrary}
use teg.Config.Checks.{sanitise_pair, clamp_dead_time, follow_carrier, check_cell}
use teg.Config.Checks.Settled.{longest_gap, IsCell, check_fixed-settled}
use teg.Config.Checks.Ranges.{
  check_current_limit-settled, check_pll_ranges-settled, check_mppt-settled, check_mqtt-settled,
  check_power_mon-settled,
}
use teg.Config.Validate.{carrier_interrupt_required, carrier_ceiling, validate_config}
use teg.Config.Validate.Parts.{IsEngine, IsAllowed, exclude_pll-settled}
use teg.Config.Validate.Safe.{IsSafe}
use teg.Config.Validate.Stable.{
  check_dither-settled, engine-carrier_was_invalid, check_module2-stays, check_meter-settled,
}
use teg.Config.Document.{config_to_json, config_from_json}
use teg.Config.Document.Engine.{unclocked}
use teg.Config.Document.Again.{IsStorable, unclocked_config, config-again}

unclocked-ceiling : (c : MainConfig) → carrier_ceiling (unclocked_config c) ≡ carrier_ceiling c
unfolding carrier_ceiling carrier_interrupt_required
unclocked-ceiling c = refl

unclocked-IsEngine :
    (c : MainConfig)
    → IsEngine (carrier_ceiling c) c.pwm.tm2
    → IsEngine (carrier_ceiling (unclocked_config c)) (unclocked c.pwm.tm2)
unclocked-IsEngine c h = rw (unclocked-ceiling c) (record {
  slow = h.slow;
  fast = h.fast;
  moving = h.moving;
  sampled = h.sampled;
  one = h.one;
  four = h.four;
  uncompensated = h.uncompensated;
})

unclocked-allowed :
    (c : MainConfig)
    → IsAllowed c.feedback.enabled c.pwm.tm2 c.pll
    → IsAllowed c.feedback.enabled (unclocked c.pwm.tm2) c.pll
unclocked-allowed c h = record {
  feedback_off = h.feedback_off;
  phase_driven = h.phase_driven;
  above = h.above;
  below = h.below;
  carrier = h.carrier;
  ratio = h.ratio;
}

-- The carrier comes back to a cell.
check_cell-restores :
    (carrier submodule : ℕ) (s : SubmoduleConfig)
    → IsCell carrier submodule s
    → (check_cell carrier submodule (record s { pwm_frequency = default_modulation_carrier_hz })).1
      ≡ s
unfolding check_cell sanitise_pair follow_carrier clamp_dead_time
check_cell-restores carrier submodule s h = ground (arith, h.mode, h.follows, h.gap, longest_gap)

module _ (j : JsonLibrary) (meter_calibration_valid : ℕ → ℕ → ℕ → ℕ → Bool) where
  unclocked-validated :
      (c : MainConfig)
      → IsSafe meter_calibration_valid c
      → 2100 + c.pwm.tm2.soft_start_ms ≤ c.mppt.interval_ms
      → (validate_config meter_calibration_valid (unclocked_config c)).1 ≡ c
  unfolding validate_config
  unclocked-validated c h ramp =
      let carrier = c.pwm.tm2.spwm_carrier_frequency in
      rw
        (
          engine-carrier_was_invalid (unclocked_config c) (unclocked-IsEngine c h.engine),
          check_module2-stays (unclocked_config c) (unclocked-IsEngine c h.engine),
          check_fixed-settled Submodule.sm13 c.pwm.tm1.sm13 h.sm13,
          check_fixed-settled Submodule.sm31 c.pwm.tm3.sm31 h.sm31,
          check_fixed-settled Submodule.sm40 c.pwm.tm4.sm40 h.sm40,
          check_fixed-settled Submodule.sm41 c.pwm.tm4.sm41 h.sm41,
          check_fixed-settled Submodule.sm42 c.pwm.tm4.sm42 h.sm42,
          check_cell-restores carrier Submodule.sm20 c.pwm.tm2.sm20 h.sm20,
          check_cell-restores carrier Submodule.sm21 c.pwm.tm2.sm21 h.sm21,
          check_cell-restores carrier Submodule.sm22 c.pwm.tm2.sm22 h.sm22,
          check_cell-restores carrier Submodule.sm23 c.pwm.tm2.sm23 h.sm23,
          check_current_limit-settled c.current_limit h.guard,
          check_pll_ranges-settled c.pll h.loop,
          exclude_pll-settled c.feedback.enabled false (unclocked c.pwm.tm2) c.pll
              (unclocked-allowed c h.allowed) refl,
          check_dither-settled c.pll.enabled (unclocked c.pwm.tm2) h.undithered,
          check_mppt-settled c.pwm.tm2.soft_start_ms c.feedback.enabled c.mppt h.tracker ramp,
          check_mqtt-settled c.mqtt h.broker,
          check_meter-settled meter_calibration_valid c.meter h.meter,
          check_power_mon-settled c.power_mon h.monitor,
          h.unsynchronised,
        )
        refl

  -- What is saved is what is loaded: a safe configuration is the same after it was written, read over
  -- another one and validated, where its values fit their fields and the reader's types, the channels
  -- without a pin are the same in both, and the tracker's interval covers the index ramp.
  pub saved-loaded :
      (c before : MainConfig)
      → IsStorable c before
      → IsSafe meter_calibration_valid c
      → 2100 + c.pwm.tm2.soft_start_ms ≤ c.mppt.interval_ms
      → (validate_config meter_calibration_valid (config_from_json j (config_to_json j c) before)).1
        ≡ c
  saved-loaded c before s h ramp =
      ap (λ (x : MainConfig). (validate_config meter_calibration_valid x).1)
        (config-again j c before s)
      ∙ unclocked-validated c h ramp
