-- ===== src/Config/Sections.antt =====
-- src/config_serde.h, configFromJson and configToJson: the sections without a section inside.
pub mod Again
pub mod Gauges
use teg.Prelude.{true, false, [], ◌∷◌, codes}
use teg.Prelude.Int.{pos, to_u8, to_u16, to_u32, to_i16}
use teg.Config.Types.{
  AsymmetricInductionConfig, FeedbackConfig, FaultProtectionConfig, CurrentLimitConfig,
  InfluxConfig, MqttConfig, MeterConfig, PllConfig, MpptConfig, ThermalConfig, PowerMonConfig,
}
use teg.Config.Secrets.{copy_config_string}
use teg.Config.Json.{JsonLibrary, Object}

module _ (j : JsonLibrary) where
  abbrev pub asymmetric_induction_fields : AsymmetricInductionConfig → Object j
  asymmetric_induction_fields s =
      ("IsEnabled", j.of_bool s.is_enabled)
      ∷ ("PreShiftNanos", j.of_int s.pre_shift_nanos)
      ∷ ("PostShiftNanos", j.of_int s.post_shift_nanos)
      ∷ []

  unfoldable pub asymmetric_induction_to_json : AsymmetricInductionConfig → j.Value
  asymmetric_induction_to_json s = j.object (asymmetric_induction_fields s)

  unfoldable pub asymmetric_induction_from_json : j.Value → AsymmetricInductionConfig
  asymmetric_induction_from_json v = record {
    is_enabled = j.bool_or (j.member v "IsEnabled") false;
    pre_shift_nanos = j.int_or (j.member v "PreShiftNanos") (pos 250);
    post_shift_nanos = j.int_or (j.member v "PostShiftNanos") (pos 500);
  }

  abbrev pub feedback_fields : FeedbackConfig → Object j
  feedback_fields s =
      ("Enabled", j.of_bool s.enabled)
      ∷ ("AnalogPin", j.of_int (pos s.analog_pin))
      ∷ ("SetpointMillivolts", j.of_int (pos s.setpoint_millivolts))
      ∷ ("FullScaleMillivolts", j.of_int (pos s.full_scale_millivolts))
      ∷ ("KpMilli", j.of_int (pos s.kp_milli))
      ∷ ("KiMilli", j.of_int (pos s.ki_milli))
      ∷ ("LoopHz", j.of_int (pos s.loop_hz))
      ∷ []

  unfoldable pub feedback_to_json : FeedbackConfig → j.Value
  feedback_to_json s = j.object (feedback_fields s)

  unfoldable pub feedback_from_json : j.Value → FeedbackConfig
  feedback_from_json v = record {
    enabled = j.bool_or (j.member v "Enabled") false;
    analog_pin = to_u8 (j.int_or (j.member v "AnalogPin") (pos 41));
    setpoint_millivolts = to_u32 (j.int_or (j.member v "SetpointMillivolts") (pos 0));
    full_scale_millivolts = to_u32 (j.int_or (j.member v "FullScaleMillivolts") (pos 3300));
    kp_milli = to_u16 (j.int_or (j.member v "KpMilli") (pos 200));
    ki_milli = to_u16 (j.int_or (j.member v "KiMilli") (pos 2000));
    loop_hz = to_u16 (j.int_or (j.member v "LoopHz") (pos 250));
  }

  abbrev pub fault_protection_fields : FaultProtectionConfig → Object j
  fault_protection_fields s =
      ("Enabled", j.of_bool s.enabled)
      ∷ ("Pin", j.of_int (pos s.pin))
      ∷ ("ActiveHigh", j.of_bool s.active_high)
      ∷ []

  unfoldable pub fault_protection_to_json : FaultProtectionConfig → j.Value
  fault_protection_to_json s = j.object (fault_protection_fields s)

  unfoldable pub fault_protection_from_json : j.Value → FaultProtectionConfig
  fault_protection_from_json v = record {
    enabled = j.bool_or (j.member v "Enabled") false;
    pin = to_u8 (j.int_or (j.member v "Pin") (pos 32));
    active_high = j.bool_or (j.member v "ActiveHigh") true;
  }

  abbrev pub current_limit_fields : CurrentLimitConfig → Object j
  current_limit_fields s =
      ("Enabled", j.of_bool s.enabled)
      ∷ ("Pin", j.of_int (pos s.pin))
      ∷ ("ThresholdMillivolts", j.of_int (pos s.threshold_millivolts))
      ∷ ("CycleByCycle", j.of_bool s.cycle_by_cycle)
      ∷ []

  unfoldable pub current_limit_to_json : CurrentLimitConfig → j.Value
  current_limit_to_json s = j.object (current_limit_fields s)

  unfoldable pub current_limit_from_json : j.Value → CurrentLimitConfig
  current_limit_from_json v = record {
    enabled = j.bool_or (j.member v "Enabled") false;
    pin = to_u8 (j.int_or (j.member v "Pin") (pos 40));
    threshold_millivolts = to_u16 (j.int_or (j.member v "ThresholdMillivolts") (pos 2475));
    cycle_by_cycle = j.bool_or (j.member v "CycleByCycle") false;
    filter_count = to_u8 (j.int_or (j.member v "FilterCount") (pos 0));
    filter_period = to_u8 (j.int_or (j.member v "FilterPeriod") (pos 0));
  }

  abbrev pub influx_fields : InfluxConfig → Object j
  influx_fields s =
      ("Host", j.of_text s.host)
      ∷ ("Port", j.of_int (pos s.port))
      ∷ ("Org", j.of_text s.org)
      ∷ ("Bucket", j.of_text s.bucket)
      ∷ ("Token", j.of_text s.token)
      ∷ ("IntervalSeconds", j.of_int (pos s.interval_seconds))
      ∷ []

  unfoldable pub influx_to_json : InfluxConfig → j.Value
  influx_to_json s = j.object (influx_fields s)

  unfoldable pub influx_from_json : j.Value → InfluxConfig
  influx_from_json v = record {
    host = copy_config_string 40 (j.text_or (j.member v "Host") []);
    port = to_u16 (j.int_or (j.member v "Port") (pos 8086));
    org = copy_config_string 24 (j.text_or (j.member v "Org") []);
    bucket = copy_config_string 32 (j.text_or (j.member v "Bucket") []);
    token = copy_config_string 96 (j.text_or (j.member v "Token") []);
    interval_seconds = to_u16 (j.int_or (j.member v "IntervalSeconds") (pos 10));
  }

  abbrev pub mqtt_fields : MqttConfig → Object j
  mqtt_fields s =
      ("Enabled", j.of_bool s.enabled)
      ∷ ("Host", j.of_text s.host)
      ∷ ("Port", j.of_int (pos s.port))
      ∷ ("Username", j.of_text s.username)
      ∷ ("Password", j.of_text s.password)
      ∷ ("BaseTopic", j.of_text s.base_topic)
      ∷ ("DiscoveryPrefix", j.of_text s.discovery_prefix)
      ∷ ("DiscoveryEnabled", j.of_bool s.discovery_enabled)
      ∷ ("IntervalSeconds", j.of_int (pos s.interval_seconds))
      ∷ []

  unfoldable pub mqtt_to_json : MqttConfig → j.Value
  mqtt_to_json s = j.object (mqtt_fields s)

  unfoldable pub mqtt_from_json : j.Value → MqttConfig
  mqtt_from_json v = record {
    enabled = j.bool_or (j.member v "Enabled") false;
    host = copy_config_string 40 (j.text_or (j.member v "Host") []);
    port = to_u16 (j.int_or (j.member v "Port") (pos 1883));
    username = copy_config_string 32 (j.text_or (j.member v "Username") []);
    password = copy_config_string 64 (j.text_or (j.member v "Password") []);
    base_topic = copy_config_string 24 (j.text_or (j.member v "BaseTopic") (codes "teg"));
    discovery_prefix =
        copy_config_string 16 (j.text_or (j.member v "DiscoveryPrefix") (codes "homeassistant"));
    discovery_enabled = j.bool_or (j.member v "DiscoveryEnabled") true;
    interval_seconds = to_u16 (j.int_or (j.member v "IntervalSeconds") (pos 10));
  }

  abbrev pub meter_fields : MeterConfig → Object j
  meter_fields s =
      ("Enabled", j.of_bool s.enabled)
      ∷ ("CurrentPin", j.of_int (pos s.current_pin))
      ∷ ("VoltageZeroMillivolts", j.of_int (pos s.voltage_zero_millivolts))
      ∷ ("CurrentZeroMillivolts", j.of_int (pos s.current_zero_millivolts))
      ∷ ("CurrentMilliampPerVolt", j.of_int (pos s.current_milliamp_per_volt))
      ∷ ("VoltageRatioMilli", j.of_int (pos s.voltage_ratio_milli))
      ∷ []

  unfoldable pub meter_to_json : MeterConfig → j.Value
  meter_to_json s = j.object (meter_fields s)

  unfoldable pub meter_from_json : j.Value → MeterConfig
  meter_from_json v = record {
    enabled = j.bool_or (j.member v "Enabled") false;
    current_pin = to_u8 (j.int_or (j.member v "CurrentPin") (pos 40));
    voltage_zero_millivolts = to_u16 (j.int_or (j.member v "VoltageZeroMillivolts") (pos 1650));
    current_zero_millivolts = to_u16 (j.int_or (j.member v "CurrentZeroMillivolts") (pos 1650));
    current_milliamp_per_volt = to_u32 (j.int_or (j.member v "CurrentMilliampPerVolt") (pos 10000));
    voltage_ratio_milli = to_u32 (j.int_or (j.member v "VoltageRatioMilli") (pos 1000));
  }

  abbrev pub pll_fields : PllConfig → Object j
  pll_fields s =
      ("Enabled", j.of_bool s.enabled)
      ∷ ("PhaseOffsetCentiDeg", j.of_int s.phase_offset_centi_deg)
      ∷ ("MinHz", j.of_int (pos s.min_hz))
      ∷ ("MaxHz", j.of_int (pos s.max_hz))
      ∷ ("BandwidthDeciHz", j.of_int (pos s.bandwidth_deci_hz))
      ∷ ("ZeroMillivolts", j.of_int (pos s.zero_millivolts))
      ∷ ("MinLevelMillivolts", j.of_int (pos s.min_level_millivolts))
      ∷ []

  unfoldable pub pll_to_json : PllConfig → j.Value
  pll_to_json s = j.object (pll_fields s)

  unfoldable pub pll_from_json : j.Value → PllConfig
  pll_from_json v = record {
    enabled = j.bool_or (j.member v "Enabled") false;
    phase_offset_centi_deg = to_i16 (j.int_or (j.member v "PhaseOffsetCentiDeg") (pos 0));
    min_hz = to_u16 (j.int_or (j.member v "MinHz") (pos 45));
    max_hz = to_u16 (j.int_or (j.member v "MaxHz") (pos 55));
    bandwidth_deci_hz = to_u16 (j.int_or (j.member v "BandwidthDeciHz") (pos 200));
    zero_millivolts = to_u16 (j.int_or (j.member v "ZeroMillivolts") (pos 1650));
    min_level_millivolts = to_u16 (j.int_or (j.member v "MinLevelMillivolts") (pos 100));
  }

  abbrev pub mppt_fields : MpptConfig → Object j
  mppt_fields s =
      ("Enabled", j.of_bool s.enabled)
      ∷ ("IntervalMs", j.of_int (pos s.interval_ms))
      ∷ ("StepMilli", j.of_int (pos s.step_milli))
      ∷ ("MinStepMilli", j.of_int (pos s.min_step_milli))
      ∷ ("MinIndexMilli", j.of_int (pos s.min_index_milli))
      ∷ ("MaxIndexMilli", j.of_int (pos s.max_index_milli))
      ∷ ("DeadbandMw", j.of_int (pos s.deadband_mw))
      ∷ ("RestartDeltaMw", j.of_int (pos s.restart_delta_mw))
      ∷ []

  unfoldable pub mppt_to_json : MpptConfig → j.Value
  mppt_to_json s = j.object (mppt_fields s)

  unfoldable pub mppt_from_json : j.Value → MpptConfig
  mppt_from_json v = record {
    enabled = j.bool_or (j.member v "Enabled") false;
    interval_ms = to_u16 (j.int_or (j.member v "IntervalMs") (pos 3000));
    step_milli = to_u16 (j.int_or (j.member v "StepMilli") (pos 20));
    min_step_milli = to_u16 (j.int_or (j.member v "MinStepMilli") (pos 5));
    min_index_milli = to_u16 (j.int_or (j.member v "MinIndexMilli") (pos 50));
    max_index_milli = to_u16 (j.int_or (j.member v "MaxIndexMilli") (pos 1000));
    deadband_mw = to_u16 (j.int_or (j.member v "DeadbandMw") (pos 10));
    restart_delta_mw = to_u32 (j.int_or (j.member v "RestartDeltaMw") (pos 1000));
  }

  abbrev pub thermal_fields : ThermalConfig → Object j
  thermal_fields s =
      ("Enabled", j.of_bool s.enabled)
      ∷ ("OneWirePin", j.of_int (pos s.one_wire_pin))
      ∷ ("DerateStartC", j.of_int (pos s.derate_start_c))
      ∷ ("DerateEndC", j.of_int (pos s.derate_end_c))
      ∷ []

  unfoldable pub thermal_to_json : ThermalConfig → j.Value
  thermal_to_json s = j.object (thermal_fields s)

  unfoldable pub thermal_from_json : j.Value → ThermalConfig
  thermal_from_json v = record {
    enabled = j.bool_or (j.member v "Enabled") false;
    one_wire_pin = to_u8 (j.int_or (j.member v "OneWirePin") (pos 21));
    derate_start_c = to_u8 (j.int_or (j.member v "DerateStartC") (pos 70));
    derate_end_c = to_u8 (j.int_or (j.member v "DerateEndC") (pos 90));
  }

  abbrev pub power_mon_fields : PowerMonConfig → Object j
  power_mon_fields s =
      ("Enabled", j.of_bool s.enabled)
      ∷ ("Address", j.of_int (pos s.address))
      ∷ ("ShuntMicroOhm", j.of_int (pos s.shunt_micro_ohm))
      ∷ ("CurrentLsbMicroAmp", j.of_int (pos s.current_lsb_micro_amp))
      ∷ ("AlertMilliAmp", j.of_int (pos s.alert_milli_amp))
      ∷ ("IntervalMs", j.of_int (pos s.interval_ms))
      ∷ ("PgEfusePin", j.of_int (pos s.pg_efuse_pin))
      ∷ ("PgBuckPin", j.of_int (pos s.pg_buck_pin))
      ∷ ("AlertPin", j.of_int (pos s.alert_pin))
      ∷ ("ImonPin", j.of_int (pos s.imon_pin))
      ∷ ("ImonRimonOhm", j.of_int (pos s.imon_rimon_ohm))
      ∷ []

  unfoldable pub power_mon_to_json : PowerMonConfig → j.Value
  power_mon_to_json s = j.object (power_mon_fields s)

  unfoldable pub power_mon_from_json : j.Value → PowerMonConfig
  power_mon_from_json v = record {
    enabled = j.bool_or (j.member v "Enabled") false;
    address = to_u8 (j.int_or (j.member v "Address") (pos 0x40));
    shunt_micro_ohm = to_u32 (j.int_or (j.member v "ShuntMicroOhm") (pos 10000));
    current_lsb_micro_amp = to_u16 (j.int_or (j.member v "CurrentLsbMicroAmp") (pos 50));
    alert_milli_amp = to_u16 (j.int_or (j.member v "AlertMilliAmp") (pos 1500));
    interval_ms = to_u16 (j.int_or (j.member v "IntervalMs") (pos 250));
    pg_efuse_pin = to_u8 (j.int_or (j.member v "PgEfusePin") (pos 14));
    pg_buck_pin = to_u8 (j.int_or (j.member v "PgBuckPin") (pos 15));
    alert_pin = to_u8 (j.int_or (j.member v "AlertPin") (pos 20));
    imon_pin = to_u8 (j.int_or (j.member v "ImonPin") (pos 255));
    imon_rimon_ohm = to_u16 (j.int_or (j.member v "ImonRimonOhm") (pos 4530));
  }
