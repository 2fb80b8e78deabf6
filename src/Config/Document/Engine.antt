-- ===== src/Config/Document/Engine.antt =====
-- The modulation engine that is written and read again.
use teg.Prelude.{◌<◌, ◌≡◌, refl, sym, ◌∙◌, false, ◌++◌}
use teg.Prelude.Int.{pos}
use teg.Config.Types.{default_modulation_carrier_hz, Module2Config}
use teg.Config.Json.{IsI8, JsonLibrary, get, get_bool, get_u8, get_u16, get_u32, get_i8}
use teg.Config.Document.{
  cell_to_json, one_sided_cell_to_json, cell_from_json, one_sided_cell_from_json, engine_fields,
  cells_fields, module2_to_json, module2_from_json,
}
use teg.Config.Document.Outputs.{StorableLeg, cell-again, one_sided_cell-again}

pub record StorableModule2 (s : Module2Config) : Type 0 where
  pub spwm_carrier_frequency : s.spwm_carrier_frequency < 2147483648
  pub spwm_modulation_frequency : s.spwm_modulation_frequency < 2147483648
  pub modulation_scheme : s.modulation_scheme < 256
  pub modulation_index_milli : s.modulation_index_milli < 65536
  pub modulation_cells : s.modulation_cells < 256
  pub carrier_disposition : s.carrier_disposition < 256
  pub soft_start_ms : s.soft_start_ms < 65536
  pub reference_waveform : s.reference_waveform < 256
  pub dpwm_variant : s.dpwm_variant < 256
  pub dpwm_clamp_angle_deg : IsI8 s.dpwm_clamp_angle_deg
  pub carrier_dither_mode : s.carrier_dither_mode < 256
  pub carrier_dither_percent : s.carrier_dither_percent < 256
  pub dead_time_compensation : s.dead_time_compensation ≡ false
  pub sm20 : StorableLeg s.sm20
  pub sm21 : StorableLeg s.sm21
  pub sm22 : StorableLeg s.sm22
  pub sm23 : StorableLeg s.sm23

-- The cells' frequencies are not stored: they come back as the default carrier.
abbrev pub unclocked : Module2Config → Module2Config
unclocked s = record s {
  sm20 = record s.sm20 { pwm_frequency = default_modulation_carrier_hz };
  sm21 = record s.sm21 { pwm_frequency = default_modulation_carrier_hz };
  sm22 = record s.sm22 { pwm_frequency = default_modulation_carrier_hz };
  sm23 = record s.sm23 { pwm_frequency = default_modulation_carrier_hz };
}

pub module2-again :
    (j : JsonLibrary) (s before : Module2Config)
    → StorableModule2 s
    → s.sm21.channel_b ≡ before.sm21.channel_b
    → module2_from_json j (module2_to_json j s) before ≡ unclocked s
unfolding module2_from_json module2_to_json
module2-again j s before h b =
    let e_use_spwm : (module2_from_json j (module2_to_json j s) before).use_spwm ≡ s.use_spwm =
      get_bool j "UseSpwm" (engine_fields j s ++ cells_fields j s) s.use_spwm false refl in
    let e_spwm_carrier_frequency : (module2_from_json j (module2_to_json j s)
          before).spwm_carrier_frequency
        ≡ s.spwm_carrier_frequency =
      get_u32 j "SpwmCarrierFrequency" (engine_fields j s ++ cells_fields j s)
        s.spwm_carrier_frequency (pos 20000) h.spwm_carrier_frequency refl in
    let e_spwm_modulation_frequency : (module2_from_json j (module2_to_json j s)
          before).spwm_modulation_frequency
        ≡ s.spwm_modulation_frequency =
      get_u32 j "SpwmModulationFrequency" (engine_fields j s ++ cells_fields j s)
        s.spwm_modulation_frequency (pos 50) h.spwm_modulation_frequency refl in
    let e_modulation_scheme : (module2_from_json j (module2_to_json j s) before).modulation_scheme
        ≡ s.modulation_scheme =
      get_u8 j "ModulationScheme" (engine_fields j s ++ cells_fields j s) s.modulation_scheme
        (pos 1) h.modulation_scheme refl in
    let e_modulation_index_milli : (module2_from_json j (module2_to_json j s)
          before).modulation_index_milli
        ≡ s.modulation_index_milli =
      get_u16 j "ModulationIndexMilli" (engine_fields j s ++ cells_fields j s)
        s.modulation_index_milli (pos 1000) h.modulation_index_milli refl in
    let e_modulation_cells : (module2_from_json j (module2_to_json j s) before).modulation_cells
        ≡ s.modulation_cells =
      get_u8 j "ModulationCells" (engine_fields j s ++ cells_fields j s) s.modulation_cells (pos 2)
        h.modulation_cells refl in
    let e_carrier_disposition : (module2_from_json j (module2_to_json j s)
          before).carrier_disposition
        ≡ s.carrier_disposition =
      get_u8 j "CarrierDisposition" (engine_fields j s ++ cells_fields j s) s.carrier_disposition
        (pos 0) h.carrier_disposition refl in
    let e_dead_time_compensation : (module2_from_json j (module2_to_json j s)
          before).dead_time_compensation
        ≡ s.dead_time_compensation =
      get j "DeadTimeCompensation" (engine_fields j s ++ cells_fields j s) (λ v. j.bool_or v false)
        j.nothing refl
      ∙ j.bool_or-nothing false
      ∙ sym h.dead_time_compensation in
    let e_soft_start_ms : (module2_from_json j (module2_to_json j s) before).soft_start_ms
        ≡ s.soft_start_ms =
      get_u16 j "SoftStartMs" (engine_fields j s ++ cells_fields j s) s.soft_start_ms (pos 0)
        h.soft_start_ms refl in
    let e_reference_waveform : (module2_from_json j (module2_to_json j s) before).reference_waveform
        ≡ s.reference_waveform =
      get_u8 j "ReferenceWaveform" (engine_fields j s ++ cells_fields j s) s.reference_waveform
        (pos 0) h.reference_waveform refl in
    let e_dpwm_variant : (module2_from_json j (module2_to_json j s) before).dpwm_variant
        ≡ s.dpwm_variant =
      get_u8 j "DpwmVariant" (engine_fields j s ++ cells_fields j s) s.dpwm_variant (pos 0)
        h.dpwm_variant refl in
    let e_dpwm_clamp_angle_deg : (module2_from_json j (module2_to_json j s)
          before).dpwm_clamp_angle_deg
        ≡ s.dpwm_clamp_angle_deg =
      get_i8 j "DpwmClampAngleDeg" (engine_fields j s ++ cells_fields j s) s.dpwm_clamp_angle_deg
        (pos 0) h.dpwm_clamp_angle_deg refl in
    let e_carrier_dither_mode : (module2_from_json j (module2_to_json j s)
          before).carrier_dither_mode
        ≡ s.carrier_dither_mode =
      get_u8 j "CarrierDitherMode" (engine_fields j s ++ cells_fields j s) s.carrier_dither_mode
        (pos 0) h.carrier_dither_mode refl in
    let e_carrier_dither_percent : (module2_from_json j (module2_to_json j s)
          before).carrier_dither_percent
        ≡ s.carrier_dither_percent =
      get_u8 j "CarrierDitherPercent" (engine_fields j s ++ cells_fields j s)
        s.carrier_dither_percent (pos 0) h.carrier_dither_percent refl in
    let e_nearest_level_modulation : (module2_from_json j (module2_to_json j s)
          before).nearest_level_modulation
        ≡ s.nearest_level_modulation =
      get_bool j "NearestLevelModulation" (engine_fields j s ++ cells_fields j s)
        s.nearest_level_modulation false refl in
    let e_waveform_sample_step : (module2_from_json j (module2_to_json j s)
          before).waveform_sample_step
        ≡ s.waveform_sample_step =
      get_bool j "WaveformSampleStep" (engine_fields j s ++ cells_fields j s) s.waveform_sample_step
        false refl in
    let e_sm20 : (module2_from_json j (module2_to_json j s) before).sm20
        ≡ record s.sm20 { pwm_frequency = default_modulation_carrier_hz } =
      get j "Sm20" (engine_fields j s ++ cells_fields j s) (λ v. cell_from_json j v)
        (cell_to_json j s.sm20) refl
      ∙ cell-again j s.sm20 h.sm20 in
    let e_sm21 : (module2_from_json j (module2_to_json j s) before).sm21
        ≡ record s.sm21 { pwm_frequency = default_modulation_carrier_hz } =
      get j "Sm21" (engine_fields j s ++ cells_fields j s)
        (λ v. one_sided_cell_from_json j v before.sm21) (one_sided_cell_to_json j s.sm21) refl
      ∙ one_sided_cell-again j s.sm21 h.sm21 before.sm21 b in
    let e_sm22 : (module2_from_json j (module2_to_json j s) before).sm22
        ≡ record s.sm22 { pwm_frequency = default_modulation_carrier_hz } =
      get j "Sm22" (engine_fields j s ++ cells_fields j s) (λ v. cell_from_json j v)
        (cell_to_json j s.sm22) refl
      ∙ cell-again j s.sm22 h.sm22 in
    let e_sm23 : (module2_from_json j (module2_to_json j s) before).sm23
        ≡ record s.sm23 { pwm_frequency = default_modulation_carrier_hz } =
      get j "Sm23" (engine_fields j s ++ cells_fields j s) (λ v. cell_from_json j v)
        (cell_to_json j s.sm23) refl
      ∙ cell-again j s.sm23 h.sm23 in
    cc
