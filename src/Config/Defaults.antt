-- ===== src/Config/Defaults.antt =====
-- src/config_json.h: the values that a new configuration has.
use teg.Prelude.{false, true, [], codes}
use teg.Prelude.Int.{pos}
use teg.Pair.{min_half_bridge_dead_time_ns}
use teg.Pair.PairMode.{independent}
use teg.Config.Types.{
  default_pwm_frequency_hz, default_modulation_carrier_hz, ChannelConfig, SubmoduleConfig,
  Module1Config, Module2Config, Module3Config, Module4Config, AsymmetricInductionConfig,
  FeedbackConfig, FaultProtectionConfig, CurrentLimitConfig, InfluxConfig, MtpConfig,
  SecurityConfig, MqttConfig, CaptureConfig, MeterConfig, PllConfig, MpptConfig, ThermalConfig,
  PowerMonConfig, PwmConfig, MainConfig,
}

abbrev pub default_channel : ChannelConfig
default_channel = record { duty_cycle = 0 }

abbrev pub default_submodule : SubmoduleConfig
default_submodule = record {
  pair = independent;
  dead_time = min_half_bridge_dead_time_ns;
  pwm_frequency = default_pwm_frequency_hz;
  channel_a = default_channel;
  channel_b = default_channel;
}

-- The initialiser of the four cells of FlexPWM2.
abbrev pub modulated_submodule : SubmoduleConfig
modulated_submodule = record default_submodule { pwm_frequency = default_modulation_carrier_hz }

abbrev pub default_module1 : Module1Config
default_module1 = record { sm13 = default_submodule }

abbrev pub default_module2 : Module2Config
default_module2 = record {
  use_spwm = false;
  spwm_carrier_frequency = default_modulation_carrier_hz;
  spwm_modulation_frequency = 50;
  modulation_scheme = 1;
  modulation_index_milli = 1000;
  modulation_cells = 2;
  carrier_disposition = 0;
  dead_time_compensation = false;
  soft_start_ms = 0;
  reference_waveform = 0;
  dpwm_variant = 0;
  dpwm_clamp_angle_deg = pos 0;
  carrier_dither_mode = 0;
  carrier_dither_percent = 0;
  nearest_level_modulation = false;
  waveform_sample_step = false;
  sm20 = modulated_submodule;
  sm21 = modulated_submodule;
  sm22 = modulated_submodule;
  sm23 = modulated_submodule;
}

abbrev pub default_module3 : Module3Config
default_module3 = record { sm31 = default_submodule }

abbrev pub default_module4 : Module4Config
default_module4 = record {
  sm40 = default_submodule;
  sm41 = default_submodule;
  sm42 = default_submodule;
}

abbrev pub default_asymmetric_induction : AsymmetricInductionConfig
default_asymmetric_induction = record {
  is_enabled = false;
  pre_shift_nanos = pos 250;
  post_shift_nanos = pos 500;
}

abbrev pub default_feedback : FeedbackConfig
default_feedback = record {
  enabled = false;
  analog_pin = 41;
  setpoint_millivolts = 0;
  full_scale_millivolts = 3300;
  kp_milli = 200;
  ki_milli = 2000;
  loop_hz = 250;
}

abbrev pub default_fault_protection : FaultProtectionConfig
default_fault_protection = record { enabled = false; pin = 32; active_high = true }

abbrev pub default_current_limit : CurrentLimitConfig
default_current_limit = record {
  enabled = false;
  pin = 40;
  threshold_millivolts = 2475;
  cycle_by_cycle = false;
  filter_count = 0;
  filter_period = 0;
}

abbrev pub default_influx : InfluxConfig
default_influx = record {
  host = [];
  port = 8086;
  org = [];
  bucket = [];
  token = [];
  interval_seconds = 10;
}

abbrev pub default_mtp : MtpConfig
default_mtp = record { enabled = false }

abbrev pub default_security : SecurityConfig
default_security = record { write_pin = [] }

abbrev pub default_mqtt : MqttConfig
default_mqtt = record {
  enabled = false;
  host = [];
  port = 1883;
  username = [];
  password = [];
  base_topic = codes "teg";
  discovery_prefix = codes "homeassistant";
  discovery_enabled = true;
  interval_seconds = 10;
}

abbrev pub default_capture : CaptureConfig
default_capture = record { enabled = false }

abbrev pub default_meter : MeterConfig
default_meter = record {
  enabled = false;
  current_pin = 40;
  voltage_zero_millivolts = 1650;
  current_zero_millivolts = 1650;
  current_milliamp_per_volt = 10000;
  voltage_ratio_milli = 1000;
}

abbrev pub default_pll : PllConfig
default_pll = record {
  enabled = false;
  phase_offset_centi_deg = pos 0;
  min_hz = 45;
  max_hz = 55;
  bandwidth_deci_hz = 200;
  zero_millivolts = 1650;
  min_level_millivolts = 100;
}

abbrev pub default_mppt : MpptConfig
default_mppt = record {
  enabled = false;
  interval_ms = 3000;
  step_milli = 20;
  min_step_milli = 5;
  min_index_milli = 50;
  max_index_milli = 1000;
  deadband_mw = 10;
  restart_delta_mw = 1000;
}

abbrev pub default_thermal : ThermalConfig
default_thermal = record {
  enabled = false;
  one_wire_pin = 21;
  derate_start_c = 70;
  derate_end_c = 90;
}

abbrev pub default_power_mon : PowerMonConfig
default_power_mon = record {
  enabled = false;
  address = 0x40;
  shunt_micro_ohm = 10000;
  current_lsb_micro_amp = 50;
  alert_milli_amp = 1500;
  interval_ms = 250;
  pg_efuse_pin = 14;
  pg_buck_pin = 15;
  alert_pin = 20;
  imon_pin = 255;
  imon_rimon_ohm = 4530;
}

abbrev pub default_pwm : PwmConfig
default_pwm = record {
  tm1 = default_module1;
  tm2 = default_module2;
  tm3 = default_module3;
  tm4 = default_module4;
  print_regs = false;
  sync_pwm = false;
  verbose = false;
}

abbrev pub defaults : MainConfig
defaults = record {
  pwm = default_pwm;
  asymmetric_induction = default_asymmetric_induction;
  feedback = default_feedback;
  fault_protection = default_fault_protection;
  current_limit = default_current_limit;
  influx = default_influx;
  mqtt = default_mqtt;
  mtp = default_mtp;
  security = default_security;
  capture = default_capture;
  meter = default_meter;
  pll = default_pll;
  mppt = default_mppt;
  thermal = default_thermal;
  power_mon = default_power_mon;
}
