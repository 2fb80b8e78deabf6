-- ===== src/Config/Validate.antt =====
-- src/config_serde.h, validateConfig and configApiRejectReason. `meterCalibrationValid` of
-- src/meter_math.h computes in floating point, and is a parameter.
pub mod Parts
pub mod Safe
pub mod Stable
use teg.Prelude.{
  ℕ, ◌*◌, ◌/◌, ◌%◌, Bool, false, not, ◌&&◌, ◌||◌, Option, none, some, ltb, ◌==◌, if◌then◌else◌,
  codes,
}
use teg.Pair.Submodule
use teg.Config.Types.{
  Text, default_modulation_carrier_hz, min_representable_pwm_frequency_hz, max_pwm_frequency_hz,
  max_modulation_carrier_hz, Module2Config, MeterConfig, PllConfig, MainConfig,
}
use teg.Config.Checks.{
  Checked, correct, ◌then_check◌, outside, check_fixed, check_cell, check_current_limit,
  check_pll_ranges, check_mppt, check_mqtt, check_power_mon,
}

-- Constants of src/modulation.h.
abbrev pub mod_scheme_fixed : ℕ
mod_scheme_fixed = 0

abbrev pub ref_wave_custom : ℕ
ref_wave_custom = 3

abbrev pub ref_wave_sequence : ℕ
ref_wave_sequence = 4

abbrev pub dither_off : ℕ
dither_off = 0

abbrev pub max_modulation_cells : ℕ
max_modulation_cells = 4

abbrev pub modulates : Module2Config → Bool
modulates s = s.use_spwm && not (s.modulation_scheme == mod_scheme_fixed)

unfoldable pub carrier_interrupt_required : MainConfig → Bool
carrier_interrupt_required c =
    modulates c.pwm.tm2
    || c.capture.enabled
    || c.meter.enabled
    || c.pll.enabled
    || (c.current_limit.enabled && c.current_limit.cycle_by_cycle)

unfoldable pub carrier_ceiling : MainConfig → ℕ
carrier_ceiling c =
    if carrier_interrupt_required c
    then (if c.thermal.enabled then 10000 else max_modulation_carrier_hz)
    else max_pwm_frequency_hz

unfoldable pub carrier_was_invalid : MainConfig → Bool
carrier_was_invalid c =
    outside min_representable_pwm_frequency_hz (carrier_ceiling c) c.pwm.tm2.spwm_carrier_frequency

unfoldable pub check_carrier : ℕ → Bool → Module2Config → Checked Module2Config
check_carrier ceiling invalid s = correct invalid s (record s {
  spwm_carrier_frequency =
      if ltb ceiling default_modulation_carrier_hz then ceiling else default_modulation_carrier_hz;
})

-- The references that the sequence and the sample step play do not use the phase.
abbrev pub stepped : Module2Config → Bool
stepped s =
    s.reference_waveform == ref_wave_sequence
    || (s.reference_waveform == ref_wave_custom && s.waveform_sample_step)

unfoldable pub check_nyquist : Module2Config → Checked Module2Config
check_nyquist s =
    correct
      (modulates s
        && not (stepped s)
        && (s.spwm_modulation_frequency == 0
            || ltb (s.spwm_carrier_frequency / 2) s.spwm_modulation_frequency))
      s (record s { use_spwm = false })

unfoldable pub check_cells : Module2Config → Checked Module2Config
check_cells s =
    correct (outside 1 max_modulation_cells s.modulation_cells) s
      (record s { modulation_cells = if ltb s.modulation_cells 1 then 1 else max_modulation_cells })

unfoldable pub check_dead_time_compensation : Module2Config → Checked Module2Config
check_dead_time_compensation s =
    correct s.dead_time_compensation s (record s { dead_time_compensation = false })

unfoldable pub check_dither : Bool → Module2Config → Checked Module2Config
check_dither pll s =
    correct (pll && not (s.carrier_dither_mode == dither_off)) s
      (record s { carrier_dither_mode = dither_off })

-- The checks of the engine that need no other section but the ceiling.
unfoldable pub check_module2 : ℕ → Bool → Module2Config → Checked Module2Config
check_module2 ceiling invalid s =
    check_carrier ceiling invalid s
    then_check check_nyquist
    then_check check_cells
    then_check check_dead_time_compensation

-- Where one of the rules excludes it, the PLL is turned off.
unfoldable pub exclude_pll : Bool → Bool → Module2Config → PllConfig → Checked PllConfig
exclude_pll feedback carrier_invalid tm2 s =
    let off = record s { enabled = false } in
    correct (s.enabled && feedback) s off
    then_check (λ s. correct (s.enabled && carrier_invalid) s off)
    then_check (λ s. correct (s.enabled && stepped tm2) s off)
    then_check (λ s.
        correct (s.enabled && outside s.min_hz s.max_hz tm2.spwm_modulation_frequency) s off)
    then_check (λ s.
        correct
          (s.enabled
            && (ltb tm2.spwm_carrier_frequency 1000
                || ltb tm2.spwm_carrier_frequency
                    (18 * tm2.spwm_modulation_frequency % 4294967296)))
          s off)

module _ (meter_calibration_valid : ℕ → ℕ → ℕ → ℕ → Bool) where
  unfoldable pub check_meter : MeterConfig → Checked MeterConfig
  check_meter s =
      correct
        (not (
          meter_calibration_valid s.voltage_zero_millivolts s.current_zero_millivolts
            s.current_milliamp_per_volt s.voltage_ratio_milli))
        s
        (record s {
          voltage_zero_millivolts = 1650;
          current_zero_millivolts = 1650;
          current_milliamp_per_volt = 10000;
          voltage_ratio_milli = 1000;
        })

  unfoldable pub validate_config : MainConfig → Checked MainConfig
  validate_config c =
      let invalid = carrier_was_invalid c in
      let sm13 = check_fixed Submodule.sm13 c.pwm.tm1.sm13 in
      let sm31 = check_fixed Submodule.sm31 c.pwm.tm3.sm31 in
      let sm40 = check_fixed Submodule.sm40 c.pwm.tm4.sm40 in
      let sm41 = check_fixed Submodule.sm41 c.pwm.tm4.sm41 in
      let sm42 = check_fixed Submodule.sm42 c.pwm.tm4.sm42 in
      let tm2 = check_module2 (carrier_ceiling c) invalid c.pwm.tm2 in
      let carrier = tm2.1.spwm_carrier_frequency in
      let sm20 = check_cell carrier Submodule.sm20 tm2.1.sm20 in
      let sm21 = check_cell carrier Submodule.sm21 tm2.1.sm21 in
      let sm22 = check_cell carrier Submodule.sm22 tm2.1.sm22 in
      let sm23 = check_cell carrier Submodule.sm23 tm2.1.sm23 in
      let current_limit' = check_current_limit c.current_limit in
      let pll' = check_pll_ranges c.pll then_check exclude_pll c.feedback.enabled invalid tm2.1 in
      let dither = check_dither pll'.1.enabled tm2.1 in
      let mppt' = check_mppt tm2.1.soft_start_ms c.feedback.enabled c.mppt in
      let mqtt' = check_mqtt c.mqtt in
      let meter' = check_meter c.meter in
      let power_mon' = check_power_mon c.power_mon in
      (
        sm13.0 || sm31.0 || sm40.0 || sm41.0 || sm42.0 || tm2.0 || c.pwm.sync_pwm || sm20.0
            || sm21.0 || sm22.0 || sm23.0 || current_limit'.0 || pll'.0 || dither.0 || mppt'.0
            || mqtt'.0 || meter'.0 || power_mon'.0,
        record c {
          pwm = record c.pwm {
            tm1 = record { sm13 = sm13.1 };
            tm2 = record dither.1 { sm20 = sm20.1; sm21 = sm21.1; sm22 = sm22.1; sm23 = sm23.1 };
            tm3 = record { sm31 = sm31.1 };
            tm4 = record { sm40 = sm40.1; sm41 = sm41.1; sm42 = sm42.1 };
            sync_pwm = false;
          };
          current_limit = current_limit'.1;
          pll = pll'.1;
          mppt = mppt'.1;
          mqtt = mqtt'.1;
          meter = meter'.1;
          power_mon = power_mon'.1;
        },
      )

-- `none` is the null pointer; the one reason is that the threshold lies outside its range.
unfoldable pub config_api_reject_reason : MainConfig → Option Text
config_api_reject_reason c =
    if outside 100 3300 c.current_limit.threshold_millivolts
    then some (codes "CurrentLimit.ThresholdMillivolts must be 100..3300")
    else none
