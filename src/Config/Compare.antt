-- ===== src/Config/Compare.antt =====
-- src/config_compare.h: the comparisons that decide whether a part of the configuration changed, one
-- for each overload of `configValuesEqual`.
pub mod Equal
pub mod Engine
use teg.Prelude.{Bool, true, false, not, ◌&&◌, ◌==◌, text_equal}
use teg.Prelude.Int.{ℤ, pos, negsuc}
use teg.Config.Types.{
  ChannelConfig, SubmoduleConfig, Module1Config, Module2Config, Module3Config, Module4Config,
  AsymmetricInductionConfig, FeedbackConfig, FaultProtectionConfig, CurrentLimitConfig, MqttConfig,
  PllConfig, MpptConfig, PowerMonConfig, PwmConfig,
}

unfoldable pub int_equal : ℤ → ℤ → Bool
int_equal (pos a) (pos b) = a == b
int_equal (pos a) (negsuc b) = false
int_equal (negsuc a) (pos b) = false
int_equal (negsuc a) (negsuc b) = a == b

unfoldable pub bool_equal : Bool → Bool → Bool
bool_equal true b = b
bool_equal false b = not b

unfoldable pub channel_equal : ChannelConfig → ChannelConfig → Bool
channel_equal left right = left.duty_cycle == right.duty_cycle

unfoldable pub submodule_equal : SubmoduleConfig → SubmoduleConfig → Bool
submodule_equal left right =
    left.pair == right.pair
    && left.dead_time == right.dead_time
    && left.pwm_frequency == right.pwm_frequency
    && channel_equal left.channel_a right.channel_a
    && channel_equal left.channel_b right.channel_b

unfoldable pub module1_equal : Module1Config → Module1Config → Bool
module1_equal left right = submodule_equal left.sm13 right.sm13

unfoldable pub module2_equal : Module2Config → Module2Config → Bool
module2_equal left right =
    bool_equal left.use_spwm right.use_spwm
    && left.spwm_carrier_frequency == right.spwm_carrier_frequency
    && left.spwm_modulation_frequency == right.spwm_modulation_frequency
    && left.modulation_scheme == right.modulation_scheme
    && left.modulation_index_milli == right.modulation_index_milli
    && left.modulation_cells == right.modulation_cells
    && left.carrier_disposition == right.carrier_disposition
    && bool_equal left.dead_time_compensation right.dead_time_compensation
    && left.soft_start_ms == right.soft_start_ms
    && left.reference_waveform == right.reference_waveform
    && left.dpwm_variant == right.dpwm_variant
    && int_equal left.dpwm_clamp_angle_deg right.dpwm_clamp_angle_deg
    && left.carrier_dither_mode == right.carrier_dither_mode
    && left.carrier_dither_percent == right.carrier_dither_percent
    && bool_equal left.nearest_level_modulation right.nearest_level_modulation
    && bool_equal left.waveform_sample_step right.waveform_sample_step
    && submodule_equal left.sm20 right.sm20
    && submodule_equal left.sm21 right.sm21
    && submodule_equal left.sm22 right.sm22
    && submodule_equal left.sm23 right.sm23

unfoldable pub module3_equal : Module3Config → Module3Config → Bool
module3_equal left right = submodule_equal left.sm31 right.sm31

unfoldable pub module4_equal : Module4Config → Module4Config → Bool
module4_equal left right =
    submodule_equal left.sm40 right.sm40
    && submodule_equal left.sm41 right.sm41
    && submodule_equal left.sm42 right.sm42

unfoldable pub pwm_equal : PwmConfig → PwmConfig → Bool
pwm_equal left right =
    module1_equal left.tm1 right.tm1
    && module2_equal left.tm2 right.tm2
    && module3_equal left.tm3 right.tm3
    && module4_equal left.tm4 right.tm4
    && bool_equal left.print_regs right.print_regs
    && bool_equal left.sync_pwm right.sync_pwm
    && bool_equal left.verbose right.verbose

unfoldable pub asymmetric_induction_equal :
    AsymmetricInductionConfig → AsymmetricInductionConfig → Bool
asymmetric_induction_equal left right =
    bool_equal left.is_enabled right.is_enabled
    && int_equal left.pre_shift_nanos right.pre_shift_nanos
    && int_equal left.post_shift_nanos right.post_shift_nanos

unfoldable pub feedback_equal : FeedbackConfig → FeedbackConfig → Bool
feedback_equal left right =
    bool_equal left.enabled right.enabled
    && left.analog_pin == right.analog_pin
    && left.setpoint_millivolts == right.setpoint_millivolts
    && left.full_scale_millivolts == right.full_scale_millivolts
    && left.kp_milli == right.kp_milli
    && left.ki_milli == right.ki_milli
    && left.loop_hz == right.loop_hz

unfoldable pub fault_protection_equal : FaultProtectionConfig → FaultProtectionConfig → Bool
fault_protection_equal left right =
    bool_equal left.enabled right.enabled
    && left.pin == right.pin
    && bool_equal left.active_high right.active_high

unfoldable pub current_limit_equal : CurrentLimitConfig → CurrentLimitConfig → Bool
current_limit_equal left right =
    bool_equal left.enabled right.enabled
    && left.pin == right.pin
    && left.threshold_millivolts == right.threshold_millivolts
    && bool_equal left.cycle_by_cycle right.cycle_by_cycle
    && left.filter_count == right.filter_count
    && left.filter_period == right.filter_period

unfoldable pub mqtt_equal : MqttConfig → MqttConfig → Bool
mqtt_equal left right =
    bool_equal left.enabled right.enabled
    && text_equal left.host right.host
    && left.port == right.port
    && text_equal left.username right.username
    && text_equal left.password right.password
    && text_equal left.base_topic right.base_topic
    && text_equal left.discovery_prefix right.discovery_prefix
    && bool_equal left.discovery_enabled right.discovery_enabled
    && left.interval_seconds == right.interval_seconds

unfoldable pub pll_equal : PllConfig → PllConfig → Bool
pll_equal left right =
    bool_equal left.enabled right.enabled
    && int_equal left.phase_offset_centi_deg right.phase_offset_centi_deg
    && left.min_hz == right.min_hz
    && left.max_hz == right.max_hz
    && left.bandwidth_deci_hz == right.bandwidth_deci_hz
    && left.zero_millivolts == right.zero_millivolts
    && left.min_level_millivolts == right.min_level_millivolts

unfoldable pub mppt_equal : MpptConfig → MpptConfig → Bool
mppt_equal left right =
    bool_equal left.enabled right.enabled
    && left.interval_ms == right.interval_ms
    && left.step_milli == right.step_milli
    && left.min_step_milli == right.min_step_milli
    && left.min_index_milli == right.min_index_milli
    && left.max_index_milli == right.max_index_milli
    && left.deadband_mw == right.deadband_mw
    && left.restart_delta_mw == right.restart_delta_mw

unfoldable pub power_mon_equal : PowerMonConfig → PowerMonConfig → Bool
power_mon_equal left right =
    bool_equal left.enabled right.enabled
    && left.address == right.address
    && left.shunt_micro_ohm == right.shunt_micro_ohm
    && left.current_lsb_micro_amp == right.current_lsb_micro_amp
    && left.alert_milli_amp == right.alert_milli_amp
    && left.interval_ms == right.interval_ms
    && left.pg_efuse_pin == right.pg_efuse_pin
    && left.pg_buck_pin == right.pg_buck_pin
    && left.alert_pin == right.alert_pin
    && left.imon_pin == right.imon_pin
    && left.imon_rimon_ohm == right.imon_rimon_ohm
