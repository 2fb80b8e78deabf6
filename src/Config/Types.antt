-- ===== src/Config/Types.antt =====
-- src/config_json.h: the configuration, one record for each struct. A character array is the string
-- that it holds, without the terminator and the cleared tail.
use teg.Prelude.{ℕ, Bool, List}
use teg.Prelude.Int.{ℤ}

abbrev pub Text : Type 0
Text = List ℕ

abbrev pub default_pwm_frequency_hz : ℕ
default_pwm_frequency_hz = 1000

abbrev pub default_modulation_carrier_hz : ℕ
default_modulation_carrier_hz = 20000

abbrev pub min_representable_pwm_frequency_hz : ℕ
min_representable_pwm_frequency_hz = 18

abbrev pub max_pwm_frequency_hz : ℕ
max_pwm_frequency_hz = 1000000

abbrev pub max_modulation_carrier_hz : ℕ
max_modulation_carrier_hz = 200000

pub record ChannelConfig : Type 0 where
  pub duty_cycle : ℕ

pub record SubmoduleConfig : Type 0 where
  pub pair : ℕ
  pub dead_time : ℕ
  pub pwm_frequency : ℕ
  pub channel_a : ChannelConfig
  pub channel_b : ChannelConfig

pub record Module1Config : Type 0 where
  pub sm13 : SubmoduleConfig

pub record Module2Config : Type 0 where
  pub use_spwm : Bool
  pub spwm_carrier_frequency : ℕ
  pub spwm_modulation_frequency : ℕ
  pub modulation_scheme : ℕ
  pub modulation_index_milli : ℕ
  pub modulation_cells : ℕ
  pub carrier_disposition : ℕ
  pub dead_time_compensation : Bool
  pub soft_start_ms : ℕ
  pub reference_waveform : ℕ
  pub dpwm_variant : ℕ
  pub dpwm_clamp_angle_deg : ℤ
  pub carrier_dither_mode : ℕ
  pub carrier_dither_percent : ℕ
  pub nearest_level_modulation : Bool
  pub waveform_sample_step : Bool
  pub sm20 : SubmoduleConfig
  pub sm21 : SubmoduleConfig
  pub sm22 : SubmoduleConfig
  pub sm23 : SubmoduleConfig

pub record Module3Config : Type 0 where
  pub sm31 : SubmoduleConfig

pub record Module4Config : Type 0 where
  pub sm40 : SubmoduleConfig
  pub sm41 : SubmoduleConfig
  pub sm42 : SubmoduleConfig

pub record AsymmetricInductionConfig : Type 0 where
  pub is_enabled : Bool
  pub pre_shift_nanos : ℤ
  pub post_shift_nanos : ℤ

pub record FeedbackConfig : Type 0 where
  pub enabled : Bool
  pub analog_pin : ℕ
  pub setpoint_millivolts : ℕ
  pub full_scale_millivolts : ℕ
  pub kp_milli : ℕ
  pub ki_milli : ℕ
  pub loop_hz : ℕ

pub record FaultProtectionConfig : Type 0 where
  pub enabled : Bool
  pub pin : ℕ
  pub active_high : Bool

pub record CurrentLimitConfig : Type 0 where
  pub enabled : Bool
  pub pin : ℕ
  pub threshold_millivolts : ℕ
  pub cycle_by_cycle : Bool
  pub filter_count : ℕ
  pub filter_period : ℕ

pub record InfluxConfig : Type 0 where
  pub host : Text
  pub port : ℕ
  pub org : Text
  pub bucket : Text
  pub token : Text
  pub interval_seconds : ℕ

pub record MtpConfig : Type 0 where
  pub enabled : Bool

pub record SecurityConfig : Type 0 where
  pub write_pin : Text

pub record MqttConfig : Type 0 where
  pub enabled : Bool
  pub host : Text
  pub port : ℕ
  pub username : Text
  pub password : Text
  pub base_topic : Text
  pub discovery_prefix : Text
  pub discovery_enabled : Bool
  pub interval_seconds : ℕ

pub record CaptureConfig : Type 0 where
  pub enabled : Bool

pub record MeterConfig : Type 0 where
  pub enabled : Bool
  pub current_pin : ℕ
  pub voltage_zero_millivolts : ℕ
  pub current_zero_millivolts : ℕ
  pub current_milliamp_per_volt : ℕ
  pub voltage_ratio_milli : ℕ

pub record PllConfig : Type 0 where
  pub enabled : Bool
  pub phase_offset_centi_deg : ℤ
  pub min_hz : ℕ
  pub max_hz : ℕ
  pub bandwidth_deci_hz : ℕ
  pub zero_millivolts : ℕ
  pub min_level_millivolts : ℕ

pub record MpptConfig : Type 0 where
  pub enabled : Bool
  pub interval_ms : ℕ
  pub step_milli : ℕ
  pub min_step_milli : ℕ
  pub min_index_milli : ℕ
  pub max_index_milli : ℕ
  pub deadband_mw : ℕ
  pub restart_delta_mw : ℕ

pub record ThermalConfig : Type 0 where
  pub enabled : Bool
  pub one_wire_pin : ℕ
  pub derate_start_c : ℕ
  pub derate_end_c : ℕ

pub record PowerMonConfig : Type 0 where
  pub enabled : Bool
  pub address : ℕ
  pub shunt_micro_ohm : ℕ
  pub current_lsb_micro_amp : ℕ
  pub alert_milli_amp : ℕ
  pub interval_ms : ℕ
  pub pg_efuse_pin : ℕ
  pub pg_buck_pin : ℕ
  pub alert_pin : ℕ
  pub imon_pin : ℕ
  pub imon_rimon_ohm : ℕ

pub record PwmConfig : Type 0 where
  pub tm1 : Module1Config
  pub tm2 : Module2Config
  pub tm3 : Module3Config
  pub tm4 : Module4Config
  pub print_regs : Bool
  pub sync_pwm : Bool
  pub verbose : Bool

pub record MainConfig : Type 0 where
  pub pwm : PwmConfig
  pub asymmetric_induction : AsymmetricInductionConfig
  pub feedback : FeedbackConfig
  pub fault_protection : FaultProtectionConfig
  pub current_limit : CurrentLimitConfig
  pub influx : InfluxConfig
  pub mqtt : MqttConfig
  pub mtp : MtpConfig
  pub security : SecurityConfig
  pub capture : CaptureConfig
  pub meter : MeterConfig
  pub pll : PllConfig
  pub mppt : MpptConfig
  pub thermal : ThermalConfig
  pub power_mon : PowerMonConfig
