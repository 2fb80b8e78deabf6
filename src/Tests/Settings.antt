-- ===== src/Tests/Settings.antt =====
-- The configuration at concrete inputs.
use teg.Prelude.{
  ℕ, ◌<◌, ◌≡◌, refl, ap, ◌↔◌, Bool, true, false, ◌&&◌, List, [], ◌∷◌, arith, ltb, leb,
  if◌then◌else◌, codes,
}
use Prim.Native.String.{String}
use text.Mathlib.Text
use teg.Prelude.Int.{ℤ, pos}
use teg.Config.Types.{Text, MainConfig}
use teg.Config.Defaults.{defaults, default_submodule, modulated_submodule}
use teg.Config.Json.{find, JsonLibrary}
use teg.Acmp.{acmp_route_for_pin}
use teg.Pair.{
  pair_mode_sanitised, pair_is_complementary, pair_allows_complementary, pair_has_channel_b,
  pair_max_dead_time_ns,
}
use teg.Config.Checks.{
  sanitise_pair, clamp_freq, clamp_dead_time, follow_carrier, check_fixed, check_cell,
  check_current_limit, phase_outside, check_pll_ranges, check_mppt, check_mqtt, ina226_cal_register,
  ina226_cal_valid, check_power_mon,
}
use teg.Config.Validate.{
  carrier_interrupt_required, carrier_ceiling, carrier_was_invalid, check_carrier, check_nyquist,
  check_cells, check_dead_time_compensation, check_dither, check_module2, exclude_pll, check_meter,
  validate_config,
}
use teg.Config.Validate.Safe.{IsSafe, validate-IsSafe}
use teg.Config.Validate.Stable.{validate-twice}
use teg.Config.Secrets.{restore_secrets, IsRestored, HasSecrets, restore_secrets-IsRestored}
use teg.Config.Compare.{pwm_equal}
use teg.Config.Compare.Engine.{pwm_equal_iff}
use teg.Config.Document.{config_to_json, config_from_json}
use teg.Config.Document.Outputs.{StorableLeg}
use teg.Config.Document.Engine.{StorableModule2}
use teg.Config.Document.Again.{IsStorable, unclocked_config, config-again}
use teg.Config.Document.Reload.{saved-loaded}

-- A calibration that is zero nowhere and biased within the supply.
abbrev plausible : ℕ → ℕ → ℕ → ℕ → Bool
plausible v i ma ratio = leb v 3300 && leb i 3300 && ltb 0 ma && ltb 0 ratio

abbrev wild : MainConfig
wild = record defaults {
  current_limit = record defaults.current_limit { pin = 3; filter_count = 9 };
  pll = record defaults.pll { enabled = true; min_hz = 900 };
  meter = record defaults.meter { voltage_ratio_milli = 0 };
}

validate-IsSafe_example : IsSafe plausible (validate_config plausible wild).1
validate-IsSafe_example = validate-IsSafe plausible wild refl

validate-twice_example :
    validate_config plausible (validate_config plausible wild).1
    ≡ (false, (validate_config plausible wild).1)
validate-twice_example = validate-twice plausible wild refl (omega arith)

abbrev slow_start : MainConfig
slow_start = record defaults {
  pwm = record defaults.pwm { tm2 = record defaults.pwm.tm2 { soft_start_ms = 60000 } };
}

-- JSON as a tree.
mutual
  data Tree : Type 0 where
    null : Tree
    truth : Bool → Tree
    number : ℤ → Tree
    words : Text → Tree
    node : Members → Tree

  data Members : Type 0 where
    empty : Members
    entry : String → Tree → Members → Members

abbrev members_of : List (String × Tree) → Members
members_of [] = empty
members_of ((k, v) ∷ fields) = entry k v (members_of fields)

abbrev in_members : String → Members → Tree
in_members k empty = null
in_members k (entry name v rest) = if Text.◌==◌ name k then v else in_members k rest

abbrev member_of : Tree → String → Tree
member_of (node fields) k = in_members k fields
member_of _ k = null

in_members-of :
    (fields : List (String × Tree)) (k : String)
    → in_members k (members_of fields) ≡ find null k fields
in_members-of [] k = refl
in_members-of ((name, v) ∷ fields) k =
    ap (λ (t : Tree). if Text.◌==◌ name k then v else t) (in_members-of fields k)

abbrev bool_of : Tree → Bool → Bool
bool_of (truth b) d = b
bool_of _ d = d

abbrev int_of : Tree → ℤ → ℤ
int_of (number z) d = z
int_of _ d = d

abbrev below_of : ℕ → Tree → ℕ → ℕ
below_of bound (number (pos n)) d = if ltb n bound then n else d
below_of bound _ d = d

abbrev text_of : Tree → Text → Text
text_of (words t) d = t
text_of _ d = d

below-number : (bound n d : ℕ) → n < bound → below_of bound (number (pos n)) d ≡ n
below-number bound n d h = ground arith

abbrev trees : JsonLibrary
trees = record {
  Value = Tree;
  nothing = null;
  object = λ fields. node (members_of fields);
  member = member_of;
  of_bool = truth;
  of_int = number;
  of_text = words;
  bool_or = bool_of;
  int_or = int_of;
  u16_or = below_of 65536;
  u32_or = below_of 4294967296;
  mode_or = below_of 3;
  text_or = text_of;
  member-object = in_members-of;
  bool_or-of_bool = λ b d. refl;
  int_or-of_int = λ z d h. refl;
  int_or-nothing = λ d. refl;
  bool_or-nothing = λ d. refl;
  u16_or-of_int = below-number 65536;
  u32_or-of_int = below-number 4294967296;
  u32_or-nothing = λ d. refl;
  mode_or-of_int = below-number 3;
  text_or-of_text = λ t d. refl;
}

leg-Storable : StorableLeg default_submodule
leg-Storable = record {
  pair = omega arith;
  dead_time = omega arith;
  pwm_frequency = omega arith;
  duty_a = omega arith;
  duty_b = omega arith;
}

cell-Storable : StorableLeg modulated_submodule
cell-Storable = record {
  pair = omega arith;
  dead_time = omega arith;
  pwm_frequency = omega arith;
  duty_a = omega arith;
  duty_b = omega arith;
}

engine-Storable : StorableModule2 defaults.pwm.tm2
engine-Storable = record {
  spwm_carrier_frequency = omega arith;
  spwm_modulation_frequency = omega arith;
  modulation_scheme = omega arith;
  modulation_index_milli = omega arith;
  modulation_cells = omega arith;
  carrier_disposition = omega arith;
  soft_start_ms = omega arith;
  reference_waveform = omega arith;
  dpwm_variant = omega arith;
  dpwm_clamp_angle_deg = omega arith;
  carrier_dither_mode = omega arith;
  carrier_dither_percent = omega arith;
  dead_time_compensation = refl;
  sm20 = cell-Storable;
  sm21 = cell-Storable;
  sm22 = cell-Storable;
  sm23 = cell-Storable;
}

defaults-IsStorable : IsStorable defaults defaults
defaults-IsStorable = record {
  asymmetric_induction = record { pre_shift_nanos = omega arith; post_shift_nanos = omega arith };
  feedback = record {
    analog_pin = omega arith;
    setpoint_millivolts = omega arith;
    full_scale_millivolts = omega arith;
    kp_milli = omega arith;
    ki_milli = omega arith;
    loop_hz = omega arith;
  };
  fault_protection = record { pin = omega arith };
  current_limit = record {
    pin = omega arith;
    threshold_millivolts = omega arith;
    filter_count = refl;
    filter_period = refl;
  };
  influx = record {
    host = record { fits = omega arith; unbroken = tt };
    port = omega arith;
    org = record { fits = omega arith; unbroken = tt };
    bucket = record { fits = omega arith; unbroken = tt };
    token = record { fits = omega arith; unbroken = tt };
    interval_seconds = omega arith;
  };
  mqtt = record {
    host = record { fits = omega arith; unbroken = tt };
    port = omega arith;
    username = record { fits = omega arith; unbroken = tt };
    password = record { fits = omega arith; unbroken = tt };
    base_topic = record {
      fits = omega arith;
      unbroken = ((ground arith, (ground arith, (ground arith, tt))));
    };
    discovery_prefix = record {
      fits = omega arith;
      unbroken =
          ((
            ground arith,
            (
              ground arith,
              (
                ground arith,
                (
                  ground arith,
                  (
                    ground arith,
                    (
                      ground arith,
                      (
                        ground arith,
                        (
                          ground arith,
                          (
                            ground arith,
                            (ground arith, (ground arith, (ground arith, (ground arith, tt)))),
                          ),
                        ),
                      ),
                    ),
                  ),
                ),
              ),
            ),
          ));
    };
    interval_seconds = omega arith;
  };
  meter = record {
    current_pin = omega arith;
    voltage_zero_millivolts = omega arith;
    current_zero_millivolts = omega arith;
    current_milliamp_per_volt = omega arith;
    voltage_ratio_milli = omega arith;
  };
  pll = record {
    phase_offset_centi_deg = omega arith;
    min_hz = omega arith;
    max_hz = omega arith;
    bandwidth_deci_hz = omega arith;
    zero_millivolts = omega arith;
    min_level_millivolts = omega arith;
  };
  mppt = record {
    interval_ms = omega arith;
    step_milli = omega arith;
    min_step_milli = omega arith;
    min_index_milli = omega arith;
    max_index_milli = omega arith;
    deadband_mw = omega arith;
    restart_delta_mw = omega arith;
  };
  thermal = record {
    one_wire_pin = omega arith;
    derate_start_c = omega arith;
    derate_end_c = omega arith;
  };
  power_mon = record {
    address = omega arith;
    shunt_micro_ohm = omega arith;
    current_lsb_micro_amp = omega arith;
    alert_milli_amp = omega arith;
    interval_ms = omega arith;
    pg_efuse_pin = omega arith;
    pg_buck_pin = omega arith;
    alert_pin = omega arith;
    imon_pin = omega arith;
    imon_rimon_ohm = omega arith;
  };
  write_pin = record { fits = omega arith; unbroken = tt };
  sm13 = leg-Storable;
  tm2 = engine-Storable;
  sm31 = leg-Storable;
  sm40 = leg-Storable;
  sm41 = leg-Storable;
  sm42 = leg-Storable;
  unsynchronised = refl;
  sm21_b = refl;
  sm40_b = refl;
  sm41_b = refl;
}

config-again_example :
    config_from_json trees (config_to_json trees defaults) defaults ≡ unclocked_config defaults
config-again_example = config-again trees defaults defaults defaults-IsStorable

defaults-valid : (validate_config plausible defaults).1 ≡ defaults
unfolding validate_config carrier_was_invalid carrier_ceiling carrier_interrupt_required check_fixed
    sanitise_pair clamp_freq clamp_dead_time check_module2 check_carrier check_nyquist check_cells
    check_dead_time_compensation check_cell follow_carrier check_current_limit check_pll_ranges
    exclude_pll check_dither check_mppt check_mqtt check_meter check_power_mon phase_outside
    ina226_cal_valid ina226_cal_register pair_mode_sanitised pair_is_complementary
    pair_allows_complementary pair_has_channel_b pair_max_dead_time_ns acmp_route_for_pin
defaults-valid = refl

defaults-IsSafe : IsSafe plausible defaults
defaults-IsSafe = rw (← defaults-valid) (validate-IsSafe plausible defaults refl)

saved-loaded_example :
    (validate_config plausible (config_from_json trees (config_to_json trees defaults) defaults)).1
    ≡ defaults
saved-loaded_example =
    saved-loaded trees plausible defaults defaults defaults-IsStorable defaults-IsSafe (omega arith)

abbrev armed : MainConfig
armed = record defaults {
  security = record { write_pin = codes "7" };
  mqtt = record defaults.mqtt { password = codes "p" };
}

armed-HasSecrets : HasSecrets armed
armed-HasSecrets = record {
  pin = record { fits = omega arith; unbroken = ((ground arith, tt)) };
  password = record { fits = omega arith; unbroken = ((ground arith, tt)) };
  token = record { fits = omega arith; unbroken = tt };
}

restore_secrets-IsRestored_example :
    IsRestored
      (record wild { mqtt = record wild.mqtt { host = codes "h" } })
      armed
      (restore_secrets (record wild { mqtt = record wild.mqtt { host = codes "h" } }) armed)
restore_secrets-IsRestored_example =
    restore_secrets-IsRestored (record wild { mqtt = record wild.mqtt { host = codes "h" } }) armed
      armed-HasSecrets

pwm_equal_iff_example :
    (pwm_equal defaults.pwm slow_start.pwm ≡ true) ↔ (defaults.pwm ≡ slow_start.pwm)
pwm_equal_iff_example = pwm_equal_iff defaults.pwm slow_start.pwm
