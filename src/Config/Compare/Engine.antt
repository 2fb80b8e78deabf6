-- ===== src/Config/Compare/Engine.antt =====
-- The comparison of the modulation engine.
use teg.Prelude.{◌≡◌, ◌↔◌, true, ◌&&◌, arith, ◌==◌, ==_iff, &&_true}
use teg.Config.Types.{Module2Config, PwmConfig}
use teg.Config.Compare.{int_equal, bool_equal, submodule_equal, module2_equal, pwm_equal}
use teg.Config.Compare.Equal.{
  bool_equal_iff, int_equal_iff, submodule_equal_iff, module1_equal_iff, module3_equal_iff,
  module4_equal_iff,
}

module2_equal_refl : (s : Module2Config) → module2_equal s s ≡ true
unfolding module2_equal
module2_equal_refl left = ground (
  arith,
  bool_equal_iff left.use_spwm left.use_spwm,
  bool_equal_iff left.dead_time_compensation left.dead_time_compensation,
  int_equal_iff left.dpwm_clamp_angle_deg left.dpwm_clamp_angle_deg,
  bool_equal_iff left.nearest_level_modulation left.nearest_level_modulation,
  bool_equal_iff left.waveform_sample_step left.waveform_sample_step,
  submodule_equal_iff left.sm20 left.sm20,
  submodule_equal_iff left.sm21 left.sm21,
  submodule_equal_iff left.sm22 left.sm22,
  submodule_equal_iff left.sm23 left.sm23,
)

module2_equal-eq : (left right : Module2Config) → module2_equal left right ≡ true → left ≡ right
unfolding module2_equal
module2_equal-eq left right h =
    let h0 : (bool_equal left.use_spwm right.use_spwm
          && left.spwm_carrier_frequency == right.spwm_carrier_frequency
          && left.spwm_modulation_frequency == right.spwm_modulation_frequency
          && left.modulation_scheme == right.modulation_scheme
          && left.modulation_index_milli == right.modulation_index_milli
          && left.modulation_cells == right.modulation_cells
          && left.carrier_disposition == right.carrier_disposition
          && bool_equal left.dead_time_compensation right.dead_time_compensation
          && left.soft_start_ms == right.soft_start_ms
          && left.reference_waveform == right.reference_waveform
          && left.dpwm_variant == right.dpwm_variant
          && int_equal left.dpwm_clamp_angle_deg right.dpwm_clamp_angle_deg
          && left.carrier_dither_mode == right.carrier_dither_mode
          && left.carrier_dither_percent == right.carrier_dither_percent
          && bool_equal left.nearest_level_modulation right.nearest_level_modulation
          && bool_equal left.waveform_sample_step right.waveform_sample_step
          && submodule_equal left.sm20 right.sm20
          && submodule_equal left.sm21 right.sm21
          && submodule_equal left.sm22 right.sm22
          && submodule_equal left.sm23 right.sm23)
        ≡ true =
      h in
    let r19 =
      &&_true
        (bool_equal left.use_spwm right.use_spwm
          && left.spwm_carrier_frequency == right.spwm_carrier_frequency
          && left.spwm_modulation_frequency == right.spwm_modulation_frequency
          && left.modulation_scheme == right.modulation_scheme
          && left.modulation_index_milli == right.modulation_index_milli
          && left.modulation_cells == right.modulation_cells
          && left.carrier_disposition == right.carrier_disposition
          && bool_equal left.dead_time_compensation right.dead_time_compensation
          && left.soft_start_ms == right.soft_start_ms
          && left.reference_waveform == right.reference_waveform
          && left.dpwm_variant == right.dpwm_variant
          && int_equal left.dpwm_clamp_angle_deg right.dpwm_clamp_angle_deg
          && left.carrier_dither_mode == right.carrier_dither_mode
          && left.carrier_dither_percent == right.carrier_dither_percent
          && bool_equal left.nearest_level_modulation right.nearest_level_modulation
          && bool_equal left.waveform_sample_step right.waveform_sample_step
          && submodule_equal left.sm20 right.sm20
          && submodule_equal left.sm21 right.sm21
          && submodule_equal left.sm22 right.sm22)
        (submodule_equal left.sm23 right.sm23) h0 in
    let e19 : left.sm23 ≡ right.sm23 = (submodule_equal_iff left.sm23 right.sm23).0 r19.1 in
    let r18 =
      &&_true
        (bool_equal left.use_spwm right.use_spwm
          && left.spwm_carrier_frequency == right.spwm_carrier_frequency
          && left.spwm_modulation_frequency == right.spwm_modulation_frequency
          && left.modulation_scheme == right.modulation_scheme
          && left.modulation_index_milli == right.modulation_index_milli
          && left.modulation_cells == right.modulation_cells
          && left.carrier_disposition == right.carrier_disposition
          && bool_equal left.dead_time_compensation right.dead_time_compensation
          && left.soft_start_ms == right.soft_start_ms
          && left.reference_waveform == right.reference_waveform
          && left.dpwm_variant == right.dpwm_variant
          && int_equal left.dpwm_clamp_angle_deg right.dpwm_clamp_angle_deg
          && left.carrier_dither_mode == right.carrier_dither_mode
          && left.carrier_dither_percent == right.carrier_dither_percent
          && bool_equal left.nearest_level_modulation right.nearest_level_modulation
          && bool_equal left.waveform_sample_step right.waveform_sample_step
          && submodule_equal left.sm20 right.sm20
          && submodule_equal left.sm21 right.sm21)
        (submodule_equal left.sm22 right.sm22) r19.0 in
    let e18 : left.sm22 ≡ right.sm22 = (submodule_equal_iff left.sm22 right.sm22).0 r18.1 in
    let r17 =
      &&_true
        (bool_equal left.use_spwm right.use_spwm
          && left.spwm_carrier_frequency == right.spwm_carrier_frequency
          && left.spwm_modulation_frequency == right.spwm_modulation_frequency
          && left.modulation_scheme == right.modulation_scheme
          && left.modulation_index_milli == right.modulation_index_milli
          && left.modulation_cells == right.modulation_cells
          && left.carrier_disposition == right.carrier_disposition
          && bool_equal left.dead_time_compensation right.dead_time_compensation
          && left.soft_start_ms == right.soft_start_ms
          && left.reference_waveform == right.reference_waveform
          && left.dpwm_variant == right.dpwm_variant
          && int_equal left.dpwm_clamp_angle_deg right.dpwm_clamp_angle_deg
          && left.carrier_dither_mode == right.carrier_dither_mode
          && left.carrier_dither_percent == right.carrier_dither_percent
          && bool_equal left.nearest_level_modulation right.nearest_level_modulation
          && bool_equal left.waveform_sample_step right.waveform_sample_step
          && submodule_equal left.sm20 right.sm20)
        (submodule_equal left.sm21 right.sm21) r18.0 in
    let e17 : left.sm21 ≡ right.sm21 = (submodule_equal_iff left.sm21 right.sm21).0 r17.1 in
    let r16 =
      &&_true
        (bool_equal left.use_spwm right.use_spwm
          && left.spwm_carrier_frequency == right.spwm_carrier_frequency
          && left.spwm_modulation_frequency == right.spwm_modulation_frequency
          && left.modulation_scheme == right.modulation_scheme
          && left.modulation_index_milli == right.modulation_index_milli
          && left.modulation_cells == right.modulation_cells
          && left.carrier_disposition == right.carrier_disposition
          && bool_equal left.dead_time_compensation right.dead_time_compensation
          && left.soft_start_ms == right.soft_start_ms
          && left.reference_waveform == right.reference_waveform
          && left.dpwm_variant == right.dpwm_variant
          && int_equal left.dpwm_clamp_angle_deg right.dpwm_clamp_angle_deg
          && left.carrier_dither_mode == right.carrier_dither_mode
          && left.carrier_dither_percent == right.carrier_dither_percent
          && bool_equal left.nearest_level_modulation right.nearest_level_modulation
          && bool_equal left.waveform_sample_step right.waveform_sample_step)
        (submodule_equal left.sm20 right.sm20) r17.0 in
    let e16 : left.sm20 ≡ right.sm20 = (submodule_equal_iff left.sm20 right.sm20).0 r16.1 in
    let r15 =
      &&_true
        (bool_equal left.use_spwm right.use_spwm
          && left.spwm_carrier_frequency == right.spwm_carrier_frequency
          && left.spwm_modulation_frequency == right.spwm_modulation_frequency
          && left.modulation_scheme == right.modulation_scheme
          && left.modulation_index_milli == right.modulation_index_milli
          && left.modulation_cells == right.modulation_cells
          && left.carrier_disposition == right.carrier_disposition
          && bool_equal left.dead_time_compensation right.dead_time_compensation
          && left.soft_start_ms == right.soft_start_ms
          && left.reference_waveform == right.reference_waveform
          && left.dpwm_variant == right.dpwm_variant
          && int_equal left.dpwm_clamp_angle_deg right.dpwm_clamp_angle_deg
          && left.carrier_dither_mode == right.carrier_dither_mode
          && left.carrier_dither_percent == right.carrier_dither_percent
          && bool_equal left.nearest_level_modulation right.nearest_level_modulation)
        (bool_equal left.waveform_sample_step right.waveform_sample_step) r16.0 in
    let e15 : left.waveform_sample_step ≡ right.waveform_sample_step =
      (bool_equal_iff left.waveform_sample_step right.waveform_sample_step).0 r15.1 in
    let r14 =
      &&_true
        (bool_equal left.use_spwm right.use_spwm
          && left.spwm_carrier_frequency == right.spwm_carrier_frequency
          && left.spwm_modulation_frequency == right.spwm_modulation_frequency
          && left.modulation_scheme == right.modulation_scheme
          && left.modulation_index_milli == right.modulation_index_milli
          && left.modulation_cells == right.modulation_cells
          && left.carrier_disposition == right.carrier_disposition
          && bool_equal left.dead_time_compensation right.dead_time_compensation
          && left.soft_start_ms == right.soft_start_ms
          && left.reference_waveform == right.reference_waveform
          && left.dpwm_variant == right.dpwm_variant
          && int_equal left.dpwm_clamp_angle_deg right.dpwm_clamp_angle_deg
          && left.carrier_dither_mode == right.carrier_dither_mode
          && left.carrier_dither_percent == right.carrier_dither_percent)
        (bool_equal left.nearest_level_modulation right.nearest_level_modulation) r15.0 in
    let e14 : left.nearest_level_modulation ≡ right.nearest_level_modulation =
      (bool_equal_iff left.nearest_level_modulation right.nearest_level_modulation).0 r14.1 in
    let r13 =
      &&_true
        (bool_equal left.use_spwm right.use_spwm
          && left.spwm_carrier_frequency == right.spwm_carrier_frequency
          && left.spwm_modulation_frequency == right.spwm_modulation_frequency
          && left.modulation_scheme == right.modulation_scheme
          && left.modulation_index_milli == right.modulation_index_milli
          && left.modulation_cells == right.modulation_cells
          && left.carrier_disposition == right.carrier_disposition
          && bool_equal left.dead_time_compensation right.dead_time_compensation
          && left.soft_start_ms == right.soft_start_ms
          && left.reference_waveform == right.reference_waveform
          && left.dpwm_variant == right.dpwm_variant
          && int_equal left.dpwm_clamp_angle_deg right.dpwm_clamp_angle_deg
          && left.carrier_dither_mode == right.carrier_dither_mode)
        (left.carrier_dither_percent == right.carrier_dither_percent) r14.0 in
    let e13 : left.carrier_dither_percent ≡ right.carrier_dither_percent =
      (==_iff left.carrier_dither_percent right.carrier_dither_percent).0 r13.1 in
    let r12 =
      &&_true
        (bool_equal left.use_spwm right.use_spwm
          && left.spwm_carrier_frequency == right.spwm_carrier_frequency
          && left.spwm_modulation_frequency == right.spwm_modulation_frequency
          && left.modulation_scheme == right.modulation_scheme
          && left.modulation_index_milli == right.modulation_index_milli
          && left.modulation_cells == right.modulation_cells
          && left.carrier_disposition == right.carrier_disposition
          && bool_equal left.dead_time_compensation right.dead_time_compensation
          && left.soft_start_ms == right.soft_start_ms
          && left.reference_waveform == right.reference_waveform
          && left.dpwm_variant == right.dpwm_variant
          && int_equal left.dpwm_clamp_angle_deg right.dpwm_clamp_angle_deg)
        (left.carrier_dither_mode == right.carrier_dither_mode) r13.0 in
    let e12 : left.carrier_dither_mode ≡ right.carrier_dither_mode =
      (==_iff left.carrier_dither_mode right.carrier_dither_mode).0 r12.1 in
    let r11 =
      &&_true
        (bool_equal left.use_spwm right.use_spwm
          && left.spwm_carrier_frequency == right.spwm_carrier_frequency
          && left.spwm_modulation_frequency == right.spwm_modulation_frequency
          && left.modulation_scheme == right.modulation_scheme
          && left.modulation_index_milli == right.modulation_index_milli
          && left.modulation_cells == right.modulation_cells
          && left.carrier_disposition == right.carrier_disposition
          && bool_equal left.dead_time_compensation right.dead_time_compensation
          && left.soft_start_ms == right.soft_start_ms
          && left.reference_waveform == right.reference_waveform
          && left.dpwm_variant == right.dpwm_variant)
        (int_equal left.dpwm_clamp_angle_deg right.dpwm_clamp_angle_deg) r12.0 in
    let e11 : left.dpwm_clamp_angle_deg ≡ right.dpwm_clamp_angle_deg =
      (int_equal_iff left.dpwm_clamp_angle_deg right.dpwm_clamp_angle_deg).0 r11.1 in
    let r10 =
      &&_true
        (bool_equal left.use_spwm right.use_spwm
          && left.spwm_carrier_frequency == right.spwm_carrier_frequency
          && left.spwm_modulation_frequency == right.spwm_modulation_frequency
          && left.modulation_scheme == right.modulation_scheme
          && left.modulation_index_milli == right.modulation_index_milli
          && left.modulation_cells == right.modulation_cells
          && left.carrier_disposition == right.carrier_disposition
          && bool_equal left.dead_time_compensation right.dead_time_compensation
          && left.soft_start_ms == right.soft_start_ms
          && left.reference_waveform == right.reference_waveform)
        (left.dpwm_variant == right.dpwm_variant) r11.0 in
    let e10 : left.dpwm_variant ≡ right.dpwm_variant =
      (==_iff left.dpwm_variant right.dpwm_variant).0 r10.1 in
    let r9 =
      &&_true
        (bool_equal left.use_spwm right.use_spwm
          && left.spwm_carrier_frequency == right.spwm_carrier_frequency
          && left.spwm_modulation_frequency == right.spwm_modulation_frequency
          && left.modulation_scheme == right.modulation_scheme
          && left.modulation_index_milli == right.modulation_index_milli
          && left.modulation_cells == right.modulation_cells
          && left.carrier_disposition == right.carrier_disposition
          && bool_equal left.dead_time_compensation right.dead_time_compensation
          && left.soft_start_ms == right.soft_start_ms)
        (left.reference_waveform == right.reference_waveform) r10.0 in
    let e9 : left.reference_waveform ≡ right.reference_waveform =
      (==_iff left.reference_waveform right.reference_waveform).0 r9.1 in
    let r8 =
      &&_true
        (bool_equal left.use_spwm right.use_spwm
          && left.spwm_carrier_frequency == right.spwm_carrier_frequency
          && left.spwm_modulation_frequency == right.spwm_modulation_frequency
          && left.modulation_scheme == right.modulation_scheme
          && left.modulation_index_milli == right.modulation_index_milli
          && left.modulation_cells == right.modulation_cells
          && left.carrier_disposition == right.carrier_disposition
          && bool_equal left.dead_time_compensation right.dead_time_compensation)
        (left.soft_start_ms == right.soft_start_ms) r9.0 in
    let e8 : left.soft_start_ms ≡ right.soft_start_ms =
      (==_iff left.soft_start_ms right.soft_start_ms).0 r8.1 in
    let r7 =
      &&_true
        (bool_equal left.use_spwm right.use_spwm
          && left.spwm_carrier_frequency == right.spwm_carrier_frequency
          && left.spwm_modulation_frequency == right.spwm_modulation_frequency
          && left.modulation_scheme == right.modulation_scheme
          && left.modulation_index_milli == right.modulation_index_milli
          && left.modulation_cells == right.modulation_cells
          && left.carrier_disposition == right.carrier_disposition)
        (bool_equal left.dead_time_compensation right.dead_time_compensation) r8.0 in
    let e7 : left.dead_time_compensation ≡ right.dead_time_compensation =
      (bool_equal_iff left.dead_time_compensation right.dead_time_compensation).0 r7.1 in
    let r6 =
      &&_true
        (bool_equal left.use_spwm right.use_spwm
          && left.spwm_carrier_frequency == right.spwm_carrier_frequency
          && left.spwm_modulation_frequency == right.spwm_modulation_frequency
          && left.modulation_scheme == right.modulation_scheme
          && left.modulation_index_milli == right.modulation_index_milli
          && left.modulation_cells == right.modulation_cells)
        (left.carrier_disposition == right.carrier_disposition) r7.0 in
    let e6 : left.carrier_disposition ≡ right.carrier_disposition =
      (==_iff left.carrier_disposition right.carrier_disposition).0 r6.1 in
    let r5 =
      &&_true
        (bool_equal left.use_spwm right.use_spwm
          && left.spwm_carrier_frequency == right.spwm_carrier_frequency
          && left.spwm_modulation_frequency == right.spwm_modulation_frequency
          && left.modulation_scheme == right.modulation_scheme
          && left.modulation_index_milli == right.modulation_index_milli)
        (left.modulation_cells == right.modulation_cells) r6.0 in
    let e5 : left.modulation_cells ≡ right.modulation_cells =
      (==_iff left.modulation_cells right.modulation_cells).0 r5.1 in
    let r4 =
      &&_true
        (bool_equal left.use_spwm right.use_spwm
          && left.spwm_carrier_frequency == right.spwm_carrier_frequency
          && left.spwm_modulation_frequency == right.spwm_modulation_frequency
          && left.modulation_scheme == right.modulation_scheme)
        (left.modulation_index_milli == right.modulation_index_milli) r5.0 in
    let e4 : left.modulation_index_milli ≡ right.modulation_index_milli =
      (==_iff left.modulation_index_milli right.modulation_index_milli).0 r4.1 in
    let r3 =
      &&_true
        (bool_equal left.use_spwm right.use_spwm
          && left.spwm_carrier_frequency == right.spwm_carrier_frequency
          && left.spwm_modulation_frequency == right.spwm_modulation_frequency)
        (left.modulation_scheme == right.modulation_scheme) r4.0 in
    let e3 : left.modulation_scheme ≡ right.modulation_scheme =
      (==_iff left.modulation_scheme right.modulation_scheme).0 r3.1 in
    let r2 =
      &&_true
        (bool_equal left.use_spwm right.use_spwm
          && left.spwm_carrier_frequency == right.spwm_carrier_frequency)
        (left.spwm_modulation_frequency == right.spwm_modulation_frequency) r3.0 in
    let e2 : left.spwm_modulation_frequency ≡ right.spwm_modulation_frequency =
      (==_iff left.spwm_modulation_frequency right.spwm_modulation_frequency).0 r2.1 in
    let r1 =
      &&_true (bool_equal left.use_spwm right.use_spwm)
        (left.spwm_carrier_frequency == right.spwm_carrier_frequency) r2.0 in
    let e1 : left.spwm_carrier_frequency ≡ right.spwm_carrier_frequency =
      (==_iff left.spwm_carrier_frequency right.spwm_carrier_frequency).0 r1.1 in
    let e0 : left.use_spwm ≡ right.use_spwm =
      (bool_equal_iff left.use_spwm right.use_spwm).0 r1.0 in
    cc

-- The comparison decides equality.
pub module2_equal_iff :
    (left right : Module2Config) → (module2_equal left right ≡ true) ↔ (left ≡ right)
module2_equal_iff left right =
    (module2_equal-eq left right, λ e. rw (← e) (module2_equal_refl left))

-- Two sets of PWM settings compare equal exactly when they are the same in every field.
pub pwm_equal_iff : (left right : PwmConfig) → (pwm_equal left right ≡ true) ↔ (left ≡ right)
unfolding pwm_equal
pwm_equal_iff left right = ground (
  arith,
  module1_equal_iff left.tm1 right.tm1,
  module2_equal_iff left.tm2 right.tm2,
  module3_equal_iff left.tm3 right.tm3,
  module4_equal_iff left.tm4 right.tm4,
  bool_equal_iff left.print_regs right.print_regs,
  bool_equal_iff left.sync_pwm right.sync_pwm,
  bool_equal_iff left.verbose right.verbose,
)
