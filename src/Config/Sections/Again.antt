-- ===== src/Config/Sections/Again.antt =====
-- A section that is written and read again.
use teg.Prelude.{◌<◌, ◌≡◌, refl, sym, ◌∙◌, true, false, []}
use teg.Prelude.Int.{pos}
use teg.Config.Types.{
  AsymmetricInductionConfig, FeedbackConfig, FaultProtectionConfig, CurrentLimitConfig,
  InfluxConfig,
}
use teg.Config.Secrets.{IsString}
use teg.Config.Json.{
  IsI32, JsonLibrary, get_bool, get_i32, get_u8, get_u16, get_u32, get_missing_u8, get_text,
}
use teg.Config.Sections.{
  asymmetric_induction_fields, asymmetric_induction_to_json, asymmetric_induction_from_json,
  feedback_fields, feedback_to_json, feedback_from_json, fault_protection_fields,
  fault_protection_to_json, fault_protection_from_json, current_limit_fields, current_limit_to_json,
  current_limit_from_json, influx_fields, influx_to_json, influx_from_json,
}

pub record StorableAsymmetricInduction (s : AsymmetricInductionConfig) : Type 0 where
  pub pre_shift_nanos : IsI32 s.pre_shift_nanos
  pub post_shift_nanos : IsI32 s.post_shift_nanos

pub asymmetric_induction-again :
    (j : JsonLibrary) (s : AsymmetricInductionConfig)
    → StorableAsymmetricInduction s
    → asymmetric_induction_from_json j (asymmetric_induction_to_json j s) ≡ s
unfolding asymmetric_induction_from_json asymmetric_induction_to_json
asymmetric_induction-again j s h =
    let e_is_enabled : (asymmetric_induction_from_json j
          (asymmetric_induction_to_json j s)).is_enabled
        ≡ s.is_enabled =
      get_bool j "IsEnabled" (asymmetric_induction_fields j s) s.is_enabled false refl in
    let e_pre_shift_nanos : (asymmetric_induction_from_json j
          (asymmetric_induction_to_json j s)).pre_shift_nanos
        ≡ s.pre_shift_nanos =
      get_i32 j "PreShiftNanos" (asymmetric_induction_fields j s) s.pre_shift_nanos (pos 250)
        h.pre_shift_nanos refl in
    let e_post_shift_nanos : (asymmetric_induction_from_json j
          (asymmetric_induction_to_json j s)).post_shift_nanos
        ≡ s.post_shift_nanos =
      get_i32 j "PostShiftNanos" (asymmetric_induction_fields j s) s.post_shift_nanos (pos 500)
        h.post_shift_nanos refl in
    cc

pub record StorableFeedback (s : FeedbackConfig) : Type 0 where
  pub analog_pin : s.analog_pin < 256
  pub setpoint_millivolts : s.setpoint_millivolts < 2147483648
  pub full_scale_millivolts : s.full_scale_millivolts < 2147483648
  pub kp_milli : s.kp_milli < 65536
  pub ki_milli : s.ki_milli < 65536
  pub loop_hz : s.loop_hz < 65536

pub feedback-again :
    (j : JsonLibrary) (s : FeedbackConfig)
    → StorableFeedback s
    → feedback_from_json j (feedback_to_json j s) ≡ s
unfolding feedback_from_json feedback_to_json
feedback-again j s h =
    let e_enabled : (feedback_from_json j (feedback_to_json j s)).enabled ≡ s.enabled =
      get_bool j "Enabled" (feedback_fields j s) s.enabled false refl in
    let e_analog_pin : (feedback_from_json j (feedback_to_json j s)).analog_pin ≡ s.analog_pin =
      get_u8 j "AnalogPin" (feedback_fields j s) s.analog_pin (pos 41) h.analog_pin refl in
    let e_setpoint_millivolts : (feedback_from_json j (feedback_to_json j s)).setpoint_millivolts
        ≡ s.setpoint_millivolts =
      get_u32 j "SetpointMillivolts" (feedback_fields j s) s.setpoint_millivolts (pos 0)
        h.setpoint_millivolts refl in
    let e_full_scale_millivolts : (feedback_from_json j
          (feedback_to_json j s)).full_scale_millivolts
        ≡ s.full_scale_millivolts =
      get_u32 j "FullScaleMillivolts" (feedback_fields j s) s.full_scale_millivolts (pos 3300)
        h.full_scale_millivolts refl in
    let e_kp_milli : (feedback_from_json j (feedback_to_json j s)).kp_milli ≡ s.kp_milli =
      get_u16 j "KpMilli" (feedback_fields j s) s.kp_milli (pos 200) h.kp_milli refl in
    let e_ki_milli : (feedback_from_json j (feedback_to_json j s)).ki_milli ≡ s.ki_milli =
      get_u16 j "KiMilli" (feedback_fields j s) s.ki_milli (pos 2000) h.ki_milli refl in
    let e_loop_hz : (feedback_from_json j (feedback_to_json j s)).loop_hz ≡ s.loop_hz =
      get_u16 j "LoopHz" (feedback_fields j s) s.loop_hz (pos 250) h.loop_hz refl in
    cc

pub record StorableFaultProtection (s : FaultProtectionConfig) : Type 0 where
  pub pin : s.pin < 256

pub fault_protection-again :
    (j : JsonLibrary) (s : FaultProtectionConfig)
    → StorableFaultProtection s
    → fault_protection_from_json j (fault_protection_to_json j s) ≡ s
unfolding fault_protection_from_json fault_protection_to_json
fault_protection-again j s h =
    let e_enabled : (fault_protection_from_json j (fault_protection_to_json j s)).enabled
        ≡ s.enabled =
      get_bool j "Enabled" (fault_protection_fields j s) s.enabled false refl in
    let e_pin : (fault_protection_from_json j (fault_protection_to_json j s)).pin ≡ s.pin =
      get_u8 j "Pin" (fault_protection_fields j s) s.pin (pos 32) h.pin refl in
    let e_active_high : (fault_protection_from_json j (fault_protection_to_json j s)).active_high
        ≡ s.active_high =
      get_bool j "ActiveHigh" (fault_protection_fields j s) s.active_high true refl in
    cc

pub record StorableCurrentLimit (s : CurrentLimitConfig) : Type 0 where
  pub pin : s.pin < 256
  pub threshold_millivolts : s.threshold_millivolts < 65536
  pub filter_count : s.filter_count ≡ 0
  pub filter_period : s.filter_period ≡ 0

pub current_limit-again :
    (j : JsonLibrary) (s : CurrentLimitConfig)
    → StorableCurrentLimit s
    → current_limit_from_json j (current_limit_to_json j s) ≡ s
unfolding current_limit_from_json current_limit_to_json
current_limit-again j s h =
    let e_enabled : (current_limit_from_json j (current_limit_to_json j s)).enabled ≡ s.enabled =
      get_bool j "Enabled" (current_limit_fields j s) s.enabled false refl in
    let e_pin : (current_limit_from_json j (current_limit_to_json j s)).pin ≡ s.pin =
      get_u8 j "Pin" (current_limit_fields j s) s.pin (pos 40) h.pin refl in
    let e_threshold_millivolts : (current_limit_from_json j
          (current_limit_to_json j s)).threshold_millivolts
        ≡ s.threshold_millivolts =
      get_u16 j "ThresholdMillivolts" (current_limit_fields j s) s.threshold_millivolts (pos 2475)
        h.threshold_millivolts refl in
    let e_cycle_by_cycle : (current_limit_from_json j (current_limit_to_json j s)).cycle_by_cycle
        ≡ s.cycle_by_cycle =
      get_bool j "CycleByCycle" (current_limit_fields j s) s.cycle_by_cycle false refl in
    let e_filter_count : (current_limit_from_json j (current_limit_to_json j s)).filter_count
        ≡ s.filter_count =
      get_missing_u8 j "FilterCount" (current_limit_fields j s) (pos 0) refl ∙ sym h.filter_count in
    let e_filter_period : (current_limit_from_json j (current_limit_to_json j s)).filter_period
        ≡ s.filter_period =
      get_missing_u8 j "FilterPeriod" (current_limit_fields j s) (pos 0) refl
      ∙ sym h.filter_period in
    cc

pub record StorableInflux (s : InfluxConfig) : Type 0 where
  pub host : IsString 40 s.host
  pub port : s.port < 65536
  pub org : IsString 24 s.org
  pub bucket : IsString 32 s.bucket
  pub token : IsString 96 s.token
  pub interval_seconds : s.interval_seconds < 65536

pub influx-again :
    (j : JsonLibrary) (s : InfluxConfig)
    → StorableInflux s
    → influx_from_json j (influx_to_json j s) ≡ s
unfolding influx_from_json influx_to_json
influx-again j s h =
    let e_host : (influx_from_json j (influx_to_json j s)).host ≡ s.host =
      get_text j "Host" (influx_fields j s) 40 s.host [] h.host refl in
    let e_port : (influx_from_json j (influx_to_json j s)).port ≡ s.port =
      get_u16 j "Port" (influx_fields j s) s.port (pos 8086) h.port refl in
    let e_org : (influx_from_json j (influx_to_json j s)).org ≡ s.org =
      get_text j "Org" (influx_fields j s) 24 s.org [] h.org refl in
    let e_bucket : (influx_from_json j (influx_to_json j s)).bucket ≡ s.bucket =
      get_text j "Bucket" (influx_fields j s) 32 s.bucket [] h.bucket refl in
    let e_token : (influx_from_json j (influx_to_json j s)).token ≡ s.token =
      get_text j "Token" (influx_fields j s) 96 s.token [] h.token refl in
    let e_interval_seconds : (influx_from_json j (influx_to_json j s)).interval_seconds
        ≡ s.interval_seconds =
      get_u16 j "IntervalSeconds" (influx_fields j s) s.interval_seconds (pos 10) h.interval_seconds
        refl in
    cc
