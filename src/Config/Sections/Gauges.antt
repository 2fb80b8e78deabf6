-- ===== src/Config/Sections/Gauges.antt =====
-- A telemetry or control section that is written and read again.
use teg.Prelude.{◌<◌, ◌≡◌, refl, true, false, [], codes}
use teg.Prelude.Int.{pos}
use teg.Config.Types.{MqttConfig, MeterConfig, PllConfig, MpptConfig, ThermalConfig, PowerMonConfig}
use teg.Config.Secrets.{IsString}
use teg.Config.Json.{IsI16, JsonLibrary, get_bool, get_u8, get_u16, get_u32, get_text, get_i16}
use teg.Config.Sections.{
  mqtt_fields, mqtt_to_json, mqtt_from_json, meter_fields, meter_to_json, meter_from_json,
  pll_fields, pll_to_json, pll_from_json, mppt_fields, mppt_to_json, mppt_from_json, thermal_fields,
  thermal_to_json, thermal_from_json, power_mon_fields, power_mon_to_json, power_mon_from_json,
}

pub record StorableMqtt (s : MqttConfig) : Type 0 where
  pub host : IsString 40 s.host
  pub port : s.port < 65536
  pub username : IsString 32 s.username
  pub password : IsString 64 s.password
  pub base_topic : IsString 24 s.base_topic
  pub discovery_prefix : IsString 16 s.discovery_prefix
  pub interval_seconds : s.interval_seconds < 65536

pub mqtt-again :
    (j : JsonLibrary) (s : MqttConfig) → StorableMqtt s → mqtt_from_json j (mqtt_to_json j s) ≡ s
unfolding mqtt_from_json mqtt_to_json
mqtt-again j s h =
    let e_enabled : (mqtt_from_json j (mqtt_to_json j s)).enabled ≡ s.enabled =
      get_bool j "Enabled" (mqtt_fields j s) s.enabled false refl in
    let e_host : (mqtt_from_json j (mqtt_to_json j s)).host ≡ s.host =
      get_text j "Host" (mqtt_fields j s) 40 s.host [] h.host refl in
    let e_port : (mqtt_from_json j (mqtt_to_json j s)).port ≡ s.port =
      get_u16 j "Port" (mqtt_fields j s) s.port (pos 1883) h.port refl in
    let e_username : (mqtt_from_json j (mqtt_to_json j s)).username ≡ s.username =
      get_text j "Username" (mqtt_fields j s) 32 s.username [] h.username refl in
    let e_password : (mqtt_from_json j (mqtt_to_json j s)).password ≡ s.password =
      get_text j "Password" (mqtt_fields j s) 64 s.password [] h.password refl in
    let e_base_topic : (mqtt_from_json j (mqtt_to_json j s)).base_topic ≡ s.base_topic =
      get_text j "BaseTopic" (mqtt_fields j s) 24 s.base_topic (codes "teg") h.base_topic refl in
    let e_discovery_prefix : (mqtt_from_json j (mqtt_to_json j s)).discovery_prefix
        ≡ s.discovery_prefix =
      get_text j "DiscoveryPrefix" (mqtt_fields j s) 16 s.discovery_prefix (codes "homeassistant")
        h.discovery_prefix refl in
    let e_discovery_enabled : (mqtt_from_json j (mqtt_to_json j s)).discovery_enabled
        ≡ s.discovery_enabled =
      get_bool j "DiscoveryEnabled" (mqtt_fields j s) s.discovery_enabled true refl in
    let e_interval_seconds : (mqtt_from_json j (mqtt_to_json j s)).interval_seconds
        ≡ s.interval_seconds =
      get_u16 j "IntervalSeconds" (mqtt_fields j s) s.interval_seconds (pos 10) h.interval_seconds
        refl in
    cc

pub record StorableMeter (s : MeterConfig) : Type 0 where
  pub current_pin : s.current_pin < 256
  pub voltage_zero_millivolts : s.voltage_zero_millivolts < 65536
  pub current_zero_millivolts : s.current_zero_millivolts < 65536
  pub current_milliamp_per_volt : s.current_milliamp_per_volt < 2147483648
  pub voltage_ratio_milli : s.voltage_ratio_milli < 2147483648

pub meter-again :
    (j : JsonLibrary) (s : MeterConfig)
    → StorableMeter s
    → meter_from_json j (meter_to_json j s) ≡ s
unfolding meter_from_json meter_to_json
meter-again j s h =
    let e_enabled : (meter_from_json j (meter_to_json j s)).enabled ≡ s.enabled =
      get_bool j "Enabled" (meter_fields j s) s.enabled false refl in
    let e_current_pin : (meter_from_json j (meter_to_json j s)).current_pin ≡ s.current_pin =
      get_u8 j "CurrentPin" (meter_fields j s) s.current_pin (pos 40) h.current_pin refl in
    let e_voltage_zero_millivolts : (meter_from_json j (meter_to_json j s)).voltage_zero_millivolts
        ≡ s.voltage_zero_millivolts =
      get_u16 j "VoltageZeroMillivolts" (meter_fields j s) s.voltage_zero_millivolts (pos 1650)
        h.voltage_zero_millivolts refl in
    let e_current_zero_millivolts : (meter_from_json j (meter_to_json j s)).current_zero_millivolts
        ≡ s.current_zero_millivolts =
      get_u16 j "CurrentZeroMillivolts" (meter_fields j s) s.current_zero_millivolts (pos 1650)
        h.current_zero_millivolts refl in
    let e_current_milliamp_per_volt : (meter_from_json j
          (meter_to_json j s)).current_milliamp_per_volt
        ≡ s.current_milliamp_per_volt =
      get_u32 j "CurrentMilliampPerVolt" (meter_fields j s) s.current_milliamp_per_volt (pos 10000)
        h.current_milliamp_per_volt refl in
    let e_voltage_ratio_milli : (meter_from_json j (meter_to_json j s)).voltage_ratio_milli
        ≡ s.voltage_ratio_milli =
      get_u32 j "VoltageRatioMilli" (meter_fields j s) s.voltage_ratio_milli (pos 1000)
        h.voltage_ratio_milli refl in
    cc

pub record StorablePll (s : PllConfig) : Type 0 where
  pub phase_offset_centi_deg : IsI16 s.phase_offset_centi_deg
  pub min_hz : s.min_hz < 65536
  pub max_hz : s.max_hz < 65536
  pub bandwidth_deci_hz : s.bandwidth_deci_hz < 65536
  pub zero_millivolts : s.zero_millivolts < 65536
  pub min_level_millivolts : s.min_level_millivolts < 65536

pub pll-again :
    (j : JsonLibrary) (s : PllConfig) → StorablePll s → pll_from_json j (pll_to_json j s) ≡ s
unfolding pll_from_json pll_to_json
pll-again j s h =
    let e_enabled : (pll_from_json j (pll_to_json j s)).enabled ≡ s.enabled =
      get_bool j "Enabled" (pll_fields j s) s.enabled false refl in
    let e_phase_offset_centi_deg : (pll_from_json j (pll_to_json j s)).phase_offset_centi_deg
        ≡ s.phase_offset_centi_deg =
      get_i16 j "PhaseOffsetCentiDeg" (pll_fields j s) s.phase_offset_centi_deg (pos 0)
        h.phase_offset_centi_deg refl in
    let e_min_hz : (pll_from_json j (pll_to_json j s)).min_hz ≡ s.min_hz =
      get_u16 j "MinHz" (pll_fields j s) s.min_hz (pos 45) h.min_hz refl in
    let e_max_hz : (pll_from_json j (pll_to_json j s)).max_hz ≡ s.max_hz =
      get_u16 j "MaxHz" (pll_fields j s) s.max_hz (pos 55) h.max_hz refl in
    let e_bandwidth_deci_hz : (pll_from_json j (pll_to_json j s)).bandwidth_deci_hz
        ≡ s.bandwidth_deci_hz =
      get_u16 j "BandwidthDeciHz" (pll_fields j s) s.bandwidth_deci_hz (pos 200) h.bandwidth_deci_hz
        refl in
    let e_zero_millivolts : (pll_from_json j (pll_to_json j s)).zero_millivolts
        ≡ s.zero_millivolts =
      get_u16 j "ZeroMillivolts" (pll_fields j s) s.zero_millivolts (pos 1650) h.zero_millivolts
        refl in
    let e_min_level_millivolts : (pll_from_json j (pll_to_json j s)).min_level_millivolts
        ≡ s.min_level_millivolts =
      get_u16 j "MinLevelMillivolts" (pll_fields j s) s.min_level_millivolts (pos 100)
        h.min_level_millivolts refl in
    cc

pub record StorableMppt (s : MpptConfig) : Type 0 where
  pub interval_ms : s.interval_ms < 65536
  pub step_milli : s.step_milli < 65536
  pub min_step_milli : s.min_step_milli < 65536
  pub min_index_milli : s.min_index_milli < 65536
  pub max_index_milli : s.max_index_milli < 65536
  pub deadband_mw : s.deadband_mw < 65536
  pub restart_delta_mw : s.restart_delta_mw < 2147483648

pub mppt-again :
    (j : JsonLibrary) (s : MpptConfig) → StorableMppt s → mppt_from_json j (mppt_to_json j s) ≡ s
unfolding mppt_from_json mppt_to_json
mppt-again j s h =
    let e_enabled : (mppt_from_json j (mppt_to_json j s)).enabled ≡ s.enabled =
      get_bool j "Enabled" (mppt_fields j s) s.enabled false refl in
    let e_interval_ms : (mppt_from_json j (mppt_to_json j s)).interval_ms ≡ s.interval_ms =
      get_u16 j "IntervalMs" (mppt_fields j s) s.interval_ms (pos 3000) h.interval_ms refl in
    let e_step_milli : (mppt_from_json j (mppt_to_json j s)).step_milli ≡ s.step_milli =
      get_u16 j "StepMilli" (mppt_fields j s) s.step_milli (pos 20) h.step_milli refl in
    let e_min_step_milli : (mppt_from_json j (mppt_to_json j s)).min_step_milli ≡ s.min_step_milli =
      get_u16 j "MinStepMilli" (mppt_fields j s) s.min_step_milli (pos 5) h.min_step_milli refl in
    let e_min_index_milli : (mppt_from_json j (mppt_to_json j s)).min_index_milli
        ≡ s.min_index_milli =
      get_u16 j "MinIndexMilli" (mppt_fields j s) s.min_index_milli (pos 50) h.min_index_milli
        refl in
    let e_max_index_milli : (mppt_from_json j (mppt_to_json j s)).max_index_milli
        ≡ s.max_index_milli =
      get_u16 j "MaxIndexMilli" (mppt_fields j s) s.max_index_milli (pos 1000) h.max_index_milli
        refl in
    let e_deadband_mw : (mppt_from_json j (mppt_to_json j s)).deadband_mw ≡ s.deadband_mw =
      get_u16 j "DeadbandMw" (mppt_fields j s) s.deadband_mw (pos 10) h.deadband_mw refl in
    let e_restart_delta_mw : (mppt_from_json j (mppt_to_json j s)).restart_delta_mw
        ≡ s.restart_delta_mw =
      get_u32 j "RestartDeltaMw" (mppt_fields j s) s.restart_delta_mw (pos 1000) h.restart_delta_mw
        refl in
    cc

pub record StorableThermal (s : ThermalConfig) : Type 0 where
  pub one_wire_pin : s.one_wire_pin < 256
  pub derate_start_c : s.derate_start_c < 256
  pub derate_end_c : s.derate_end_c < 256

pub thermal-again :
    (j : JsonLibrary) (s : ThermalConfig)
    → StorableThermal s
    → thermal_from_json j (thermal_to_json j s) ≡ s
unfolding thermal_from_json thermal_to_json
thermal-again j s h =
    let e_enabled : (thermal_from_json j (thermal_to_json j s)).enabled ≡ s.enabled =
      get_bool j "Enabled" (thermal_fields j s) s.enabled false refl in
    let e_one_wire_pin : (thermal_from_json j (thermal_to_json j s)).one_wire_pin ≡ s.one_wire_pin =
      get_u8 j "OneWirePin" (thermal_fields j s) s.one_wire_pin (pos 21) h.one_wire_pin refl in
    let e_derate_start_c : (thermal_from_json j (thermal_to_json j s)).derate_start_c
        ≡ s.derate_start_c =
      get_u8 j "DerateStartC" (thermal_fields j s) s.derate_start_c (pos 70) h.derate_start_c
        refl in
    let e_derate_end_c : (thermal_from_json j (thermal_to_json j s)).derate_end_c ≡ s.derate_end_c =
      get_u8 j "DerateEndC" (thermal_fields j s) s.derate_end_c (pos 90) h.derate_end_c refl in
    cc

pub record StorablePowerMon (s : PowerMonConfig) : Type 0 where
  pub address : s.address < 256
  pub shunt_micro_ohm : s.shunt_micro_ohm < 2147483648
  pub current_lsb_micro_amp : s.current_lsb_micro_amp < 65536
  pub alert_milli_amp : s.alert_milli_amp < 65536
  pub interval_ms : s.interval_ms < 65536
  pub pg_efuse_pin : s.pg_efuse_pin < 256
  pub pg_buck_pin : s.pg_buck_pin < 256
  pub alert_pin : s.alert_pin < 256
  pub imon_pin : s.imon_pin < 256
  pub imon_rimon_ohm : s.imon_rimon_ohm < 65536

pub power_mon-again :
    (j : JsonLibrary) (s : PowerMonConfig)
    → StorablePowerMon s
    → power_mon_from_json j (power_mon_to_json j s) ≡ s
unfolding power_mon_from_json power_mon_to_json
power_mon-again j s h =
    let e_enabled : (power_mon_from_json j (power_mon_to_json j s)).enabled ≡ s.enabled =
      get_bool j "Enabled" (power_mon_fields j s) s.enabled false refl in
    let e_address : (power_mon_from_json j (power_mon_to_json j s)).address ≡ s.address =
      get_u8 j "Address" (power_mon_fields j s) s.address (pos 0x40) h.address refl in
    let e_shunt_micro_ohm : (power_mon_from_json j (power_mon_to_json j s)).shunt_micro_ohm
        ≡ s.shunt_micro_ohm =
      get_u32 j "ShuntMicroOhm" (power_mon_fields j s) s.shunt_micro_ohm (pos 10000)
        h.shunt_micro_ohm refl in
    let e_current_lsb_micro_amp : (power_mon_from_json j
          (power_mon_to_json j s)).current_lsb_micro_amp
        ≡ s.current_lsb_micro_amp =
      get_u16 j "CurrentLsbMicroAmp" (power_mon_fields j s) s.current_lsb_micro_amp (pos 50)
        h.current_lsb_micro_amp refl in
    let e_alert_milli_amp : (power_mon_from_json j (power_mon_to_json j s)).alert_milli_amp
        ≡ s.alert_milli_amp =
      get_u16 j "AlertMilliAmp" (power_mon_fields j s) s.alert_milli_amp (pos 1500)
        h.alert_milli_amp refl in
    let e_interval_ms : (power_mon_from_json j (power_mon_to_json j s)).interval_ms
        ≡ s.interval_ms =
      get_u16 j "IntervalMs" (power_mon_fields j s) s.interval_ms (pos 250) h.interval_ms refl in
    let e_pg_efuse_pin : (power_mon_from_json j (power_mon_to_json j s)).pg_efuse_pin
        ≡ s.pg_efuse_pin =
      get_u8 j "PgEfusePin" (power_mon_fields j s) s.pg_efuse_pin (pos 14) h.pg_efuse_pin refl in
    let e_pg_buck_pin : (power_mon_from_json j (power_mon_to_json j s)).pg_buck_pin
        ≡ s.pg_buck_pin =
      get_u8 j "PgBuckPin" (power_mon_fields j s) s.pg_buck_pin (pos 15) h.pg_buck_pin refl in
    let e_alert_pin : (power_mon_from_json j (power_mon_to_json j s)).alert_pin ≡ s.alert_pin =
      get_u8 j "AlertPin" (power_mon_fields j s) s.alert_pin (pos 20) h.alert_pin refl in
    let e_imon_pin : (power_mon_from_json j (power_mon_to_json j s)).imon_pin ≡ s.imon_pin =
      get_u8 j "ImonPin" (power_mon_fields j s) s.imon_pin (pos 255) h.imon_pin refl in
    let e_imon_rimon_ohm : (power_mon_from_json j (power_mon_to_json j s)).imon_rimon_ohm
        ≡ s.imon_rimon_ohm =
      get_u16 j "ImonRimonOhm" (power_mon_fields j s) s.imon_rimon_ohm (pos 4530) h.imon_rimon_ohm
        refl in
    cc
