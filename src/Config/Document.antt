-- ===== src/Config/Document.antt =====
-- src/config_serde.h, configFromJson and configToJson: the outputs, and the whole document.
pub mod Outputs
pub mod Engine
pub mod Again
pub mod Reload
use teg.Prelude.{ℕ, ◌+◌, false, [], ◌∷◌, ◌++◌}
use teg.Prelude.Int.{pos, to_u8, to_u16, to_u32, to_i8}
use teg.Pair.{min_half_bridge_dead_time_ns}
use teg.Pair.PairMode.{independent}
use teg.Config.Types.{
  default_pwm_frequency_hz, default_modulation_carrier_hz, ChannelConfig, SubmoduleConfig,
  Module2Config, Module4Config, PwmConfig, MainConfig,
}
use teg.Config.Secrets.{copy_config_string}
use teg.Config.Json.{JsonLibrary, Object}
use teg.Config.Sections.{
  asymmetric_induction_to_json, asymmetric_induction_from_json, feedback_to_json,
  feedback_from_json, fault_protection_to_json, fault_protection_from_json, current_limit_to_json,
  current_limit_from_json, influx_to_json, influx_from_json, mqtt_to_json, mqtt_from_json,
  meter_to_json, meter_from_json, pll_to_json, pll_from_json, mppt_to_json, mppt_from_json,
  thermal_to_json, thermal_from_json, power_mon_to_json, power_mon_from_json,
}

module _ (j : JsonLibrary) where
  unfoldable pub channel_to_json : ChannelConfig → j.Value
  channel_to_json s = j.object (("DutyCycle", j.of_int (pos s.duty_cycle)) ∷ [])

  unfoldable pub channel_from_json : j.Value → ChannelConfig
  channel_from_json v = record { duty_cycle = to_u16 (j.int_or (j.member v "DutyCycle") (pos 0)) }

  abbrev pub leg_fields : SubmoduleConfig → Object j
  leg_fields s = ("Pair", j.of_int (pos s.pair)) ∷ ("DeadTime", j.of_int (pos s.dead_time)) ∷ []

  abbrev pub side_a : SubmoduleConfig → Object j
  side_a s = ("ChannelA", channel_to_json s.channel_a) ∷ []

  abbrev pub side_b : SubmoduleConfig → Object j
  side_b s = ("ChannelB", channel_to_json s.channel_b) ∷ []

  abbrev pub frequency_field : SubmoduleConfig → Object j
  frequency_field s = ("PwmFrequency", j.of_int (pos s.pwm_frequency)) ∷ []

  -- Sm13, Sm31 and Sm42.
  unfoldable pub full_to_json : SubmoduleConfig → j.Value
  full_to_json s = j.object (leg_fields s ++ frequency_field s ++ side_a s ++ side_b s)

  -- Sm40 and Sm41, whose channel B has no pin.
  unfoldable pub one_sided_to_json : SubmoduleConfig → j.Value
  one_sided_to_json s = j.object (leg_fields s ++ frequency_field s ++ side_a s)

  -- Sm20, Sm22 and Sm23.
  unfoldable pub cell_to_json : SubmoduleConfig → j.Value
  cell_to_json s = j.object (leg_fields s ++ side_a s ++ side_b s)

  -- Sm21.
  unfoldable pub one_sided_cell_to_json : SubmoduleConfig → j.Value
  one_sided_cell_to_json s = j.object (leg_fields s ++ side_a s)

  -- What is read alike of every submodule; the frequency and channel B are the caller's.
  unfoldable pub leg_from_json : j.Value → ℕ → ChannelConfig → SubmoduleConfig
  leg_from_json v frequency b = record {
    pair = to_u8 (pos (j.mode_or (j.member v "Pair") independent));
    dead_time = j.u16_or (j.member v "DeadTime") min_half_bridge_dead_time_ns;
    pwm_frequency = frequency;
    channel_a = channel_from_json (j.member v "ChannelA");
    channel_b = b;
  }

  unfoldable pub sm13_from_json : j.Value → SubmoduleConfig
  sm13_from_json v =
      leg_from_json v (j.u32_or (j.member v "PwmFrequency") default_pwm_frequency_hz)
        (channel_from_json (j.member v "ChannelB"))

  -- Sm31 and Sm42.
  unfoldable pub full_from_json : j.Value → SubmoduleConfig
  full_from_json v =
      leg_from_json v (to_u32 (j.int_or (j.member v "PwmFrequency") (pos 1000)))
        (channel_from_json (j.member v "ChannelB"))

  -- Sm40 and Sm41: channel B stays as it is.
  unfoldable pub one_sided_from_json : j.Value → SubmoduleConfig → SubmoduleConfig
  one_sided_from_json v s =
      leg_from_json v (to_u32 (j.int_or (j.member v "PwmFrequency") (pos 1000))) s.channel_b

  abbrev pub cell_frequency : j.Value → ℕ
  cell_frequency v = j.u32_or (j.member v "PwmFrequency") default_modulation_carrier_hz

  unfoldable pub cell_from_json : j.Value → SubmoduleConfig
  cell_from_json v = leg_from_json v (cell_frequency v) (channel_from_json (j.member v "ChannelB"))

  unfoldable pub one_sided_cell_from_json : j.Value → SubmoduleConfig → SubmoduleConfig
  one_sided_cell_from_json v s = leg_from_json v (cell_frequency v) s.channel_b

  abbrev pub engine_fields : Module2Config → Object j
  engine_fields s =
      ("UseSpwm", j.of_bool s.use_spwm)
      ∷ ("SpwmCarrierFrequency", j.of_int (pos s.spwm_carrier_frequency))
      ∷ ("SpwmModulationFrequency", j.of_int (pos s.spwm_modulation_frequency))
      ∷ ("ModulationScheme", j.of_int (pos s.modulation_scheme))
      ∷ ("ModulationIndexMilli", j.of_int (pos s.modulation_index_milli))
      ∷ ("ModulationCells", j.of_int (pos s.modulation_cells))
      ∷ ("CarrierDisposition", j.of_int (pos s.carrier_disposition))
      ∷ ("SoftStartMs", j.of_int (pos s.soft_start_ms))
      ∷ ("ReferenceWaveform", j.of_int (pos s.reference_waveform))
      ∷ ("DpwmVariant", j.of_int (pos s.dpwm_variant))
      ∷ ("DpwmClampAngleDeg", j.of_int s.dpwm_clamp_angle_deg)
      ∷ ("CarrierDitherMode", j.of_int (pos s.carrier_dither_mode))
      ∷ ("CarrierDitherPercent", j.of_int (pos s.carrier_dither_percent))
      ∷ ("NearestLevelModulation", j.of_bool s.nearest_level_modulation)
      ∷ ("WaveformSampleStep", j.of_bool s.waveform_sample_step)
      ∷ []

  abbrev pub cells_fields : Module2Config → Object j
  cells_fields s =
      ("Sm20", cell_to_json s.sm20)
      ∷ ("Sm21", one_sided_cell_to_json s.sm21)
      ∷ ("Sm22", cell_to_json s.sm22)
      ∷ ("Sm23", cell_to_json s.sm23)
      ∷ []

  unfoldable pub module2_to_json : Module2Config → j.Value
  module2_to_json s = j.object (engine_fields s ++ cells_fields s)

  unfoldable pub module2_from_json : j.Value → Module2Config → Module2Config
  module2_from_json v s = record {
    use_spwm = j.bool_or (j.member v "UseSpwm") false;
    spwm_carrier_frequency = to_u32 (j.int_or (j.member v "SpwmCarrierFrequency") (pos 20000));
    spwm_modulation_frequency = to_u32 (j.int_or (j.member v "SpwmModulationFrequency") (pos 50));
    modulation_scheme = to_u8 (j.int_or (j.member v "ModulationScheme") (pos 1));
    modulation_index_milli = to_u16 (j.int_or (j.member v "ModulationIndexMilli") (pos 1000));
    modulation_cells = to_u8 (j.int_or (j.member v "ModulationCells") (pos 2));
    carrier_disposition = to_u8 (j.int_or (j.member v "CarrierDisposition") (pos 0));
    dead_time_compensation = j.bool_or (j.member v "DeadTimeCompensation") false;
    soft_start_ms = to_u16 (j.int_or (j.member v "SoftStartMs") (pos 0));
    reference_waveform = to_u8 (j.int_or (j.member v "ReferenceWaveform") (pos 0));
    dpwm_variant = to_u8 (j.int_or (j.member v "DpwmVariant") (pos 0));
    dpwm_clamp_angle_deg = to_i8 (j.int_or (j.member v "DpwmClampAngleDeg") (pos 0));
    carrier_dither_mode = to_u8 (j.int_or (j.member v "CarrierDitherMode") (pos 0));
    carrier_dither_percent = to_u8 (j.int_or (j.member v "CarrierDitherPercent") (pos 0));
    nearest_level_modulation = j.bool_or (j.member v "NearestLevelModulation") false;
    waveform_sample_step = j.bool_or (j.member v "WaveformSampleStep") false;
    sm20 = cell_from_json (j.member v "Sm20");
    sm21 = one_sided_cell_from_json (j.member v "Sm21") s.sm21;
    sm22 = cell_from_json (j.member v "Sm22");
    sm23 = cell_from_json (j.member v "Sm23");
  }

  abbrev pub module4_fields : Module4Config → Object j
  module4_fields s =
      ("Sm40", one_sided_to_json s.sm40)
      ∷ ("Sm41", one_sided_to_json s.sm41)
      ∷ ("Sm42", full_to_json s.sm42)
      ∷ []

  unfoldable pub module4_from_json : j.Value → Module4Config → Module4Config
  module4_from_json v s = record {
    sm40 = one_sided_from_json (j.member v "Sm40") s.sm40;
    sm41 = one_sided_from_json (j.member v "Sm41") s.sm41;
    sm42 = full_from_json (j.member v "Sm42");
  }

  abbrev pub pwm_fields : PwmConfig → Object j
  pwm_fields s =
      ("PrintRegs", j.of_bool s.print_regs)
      ∷ ("Verbose", j.of_bool s.verbose)
      ∷ ("Tm1", j.object (("Sm13", full_to_json s.tm1.sm13) ∷ []))
      ∷ ("Tm2", module2_to_json s.tm2)
      ∷ ("Tm3", j.object (("Sm31", full_to_json s.tm3.sm31) ∷ []))
      ∷ ("Tm4", j.object (module4_fields s.tm4))
      ∷ []

  unfoldable pub pwm_to_json : PwmConfig → j.Value
  pwm_to_json s = j.object (pwm_fields s)

  unfoldable pub pwm_from_json : j.Value → PwmConfig → PwmConfig
  pwm_from_json v s = record {
    print_regs = j.bool_or (j.member v "PrintRegs") false;
    sync_pwm = j.bool_or (j.member v "SyncPwm") false;
    verbose = j.bool_or (j.member v "Verbose") false;
    tm1 = record { sm13 = sm13_from_json (j.member (j.member v "Tm1") "Sm13") };
    tm2 = module2_from_json (j.member v "Tm2") s.tm2;
    tm3 = record { sm31 = full_from_json (j.member (j.member v "Tm3") "Sm31") };
    tm4 = module4_from_json (j.member v "Tm4") s.tm4;
  }

  abbrev pub config_fields : MainConfig → Object j
  config_fields c =
      ("AsymmetricInduction", asymmetric_induction_to_json j c.asymmetric_induction)
      ∷ ("Pwm", pwm_to_json c.pwm)
      ∷ ("Feedback", feedback_to_json j c.feedback)
      ∷ ("FaultProtection", fault_protection_to_json j c.fault_protection)
      ∷ ("CurrentLimit", current_limit_to_json j c.current_limit)
      ∷ ("Influx", influx_to_json j c.influx)
      ∷ ("Mqtt", mqtt_to_json j c.mqtt)
      ∷ ("Mtp", j.object (("Enabled", j.of_bool c.mtp.enabled) ∷ []))
      ∷ ("Security", j.object (("WritePin", j.of_text c.security.write_pin) ∷ []))
      ∷ ("Capture", j.object (("Enabled", j.of_bool c.capture.enabled) ∷ []))
      ∷ ("Meter", meter_to_json j c.meter)
      ∷ ("Pll", pll_to_json j c.pll)
      ∷ ("Mppt", mppt_to_json j c.mppt)
      ∷ ("Thermal", thermal_to_json j c.thermal)
      ∷ ("PowerMon", power_mon_to_json j c.power_mon)
      ∷ []

  unfoldable pub config_to_json : MainConfig → j.Value
  config_to_json c =
      j.object (("SchemaVersion", j.of_int (pos 1)) ∷ ("Config", j.object (config_fields c)) ∷ [])

  -- What the document sets of a configuration.
  unfoldable pub config_from_json : j.Value → MainConfig → MainConfig
  config_from_json document c =
      let v = j.member document "Config" in
      record {
        asymmetric_induction = asymmetric_induction_from_json j (j.member v "AsymmetricInduction");
        pwm = pwm_from_json (j.member v "Pwm") c.pwm;
        feedback = feedback_from_json j (j.member v "Feedback");
        fault_protection = fault_protection_from_json j (j.member v "FaultProtection");
        current_limit = current_limit_from_json j (j.member v "CurrentLimit");
        influx = influx_from_json j (j.member v "Influx");
        mqtt = mqtt_from_json j (j.member v "Mqtt");
        mtp = record { enabled = j.bool_or (j.member (j.member v "Mtp") "Enabled") false };
        security = record {
          write_pin =
              copy_config_string 16 (j.text_or (j.member (j.member v "Security") "WritePin") []);
        };
        capture = record { enabled = j.bool_or (j.member (j.member v "Capture") "Enabled") false };
        meter = meter_from_json j (j.member v "Meter");
        pll = pll_from_json j (j.member v "Pll");
        mppt = mppt_from_json j (j.member v "Mppt");
        thermal = thermal_from_json j (j.member v "Thermal");
        power_mon = power_mon_from_json j (j.member v "PowerMon");
      }

  -- redactSecrets, as the configuration whose document it leaves.
  unfoldable pub without_secrets : MainConfig → MainConfig
  without_secrets c = record c {
    influx = record c.influx { token = [] };
    security = record { write_pin = [] };
    mqtt = record c.mqtt { password = [] };
  }
