-- ===== src/Config/Checks.antt =====
-- src/config_serde.h, validateConfig: the corrections, a section at a time. A check returns whether
-- it corrected something (the flag `corrected`) and the section. Sections that no check reads
-- together are checked in an order of their own.
pub mod Settled
pub mod Ranges
use teg.Prelude.{
  ℕ, suc, ◌+◌, ◌*◌, ◌/◌, ◌%◌, Bool, true, false, not, ◌&&◌, ◌||◌, [], ltb, leb, ◌==◌, if◌then◌else◌,
  codes, text_equal,
}
use teg.Prelude.Int.{ℤ, pos, negsuc}
use teg.Pair.{pair_mode_sanitised, pair_max_dead_time_ns, pwm_bus_clock_hz}
use teg.Acmp.{acmp_route_for_pin}
use teg.Config.Types.{
  Text, default_pwm_frequency_hz, min_representable_pwm_frequency_hz, max_pwm_frequency_hz,
  SubmoduleConfig, CurrentLimitConfig, MqttConfig, PllConfig, MpptConfig, PowerMonConfig,
}

abbrev pub Checked : Type 0 → Type 0
Checked A = Bool × A

-- `if (bad) { value = repaired; corrected = true; }`
abbrev pub correct : {A : Type 0} → Bool → A → A → Checked A
correct bad a repaired = if bad then (true, repaired) else (false, a)

infixl 5 ◌then_check◌
abbrev pub ◌then_check◌ : {A : Type 0} → Checked A → (A → Checked A) → Checked A
(corrected, a) then_check check = (corrected || (check a).0, (check a).1)

abbrev pub outside : ℕ → ℕ → ℕ → Bool
outside low high n = ltb n low || ltb high n

unfoldable pub sanitise_pair : ℕ → SubmoduleConfig → Checked SubmoduleConfig
sanitise_pair submodule s =
    let safe = pair_mode_sanitised s.pair submodule in
    correct (not (safe == s.pair)) s (record s { pair = safe })

unfoldable pub clamp_freq : SubmoduleConfig → Checked SubmoduleConfig
clamp_freq s =
    correct (outside min_representable_pwm_frequency_hz max_pwm_frequency_hz s.pwm_frequency) s
      (record s { pwm_frequency = default_pwm_frequency_hz })

unfoldable pub clamp_dead_time : SubmoduleConfig → Checked SubmoduleConfig
clamp_dead_time s =
    let longest = pair_max_dead_time_ns pwm_bus_clock_hz in
    correct (ltb longest s.dead_time) s (record s { dead_time = longest % 65536 })

-- The cells of FlexPWM2 run at the carrier.
unfoldable pub follow_carrier : ℕ → SubmoduleConfig → Checked SubmoduleConfig
follow_carrier carrier s =
    correct (not (s.pwm_frequency == carrier)) s (record s { pwm_frequency = carrier })

-- Sm13, Sm31, Sm40, Sm41 and Sm42.
unfoldable pub check_fixed : ℕ → SubmoduleConfig → Checked SubmoduleConfig
check_fixed submodule s = sanitise_pair submodule s then_check clamp_freq then_check clamp_dead_time

-- Sm20 to Sm23.
unfoldable pub check_cell : ℕ → ℕ → SubmoduleConfig → Checked SubmoduleConfig
check_cell carrier submodule s =
    follow_carrier carrier s then_check sanitise_pair submodule then_check clamp_dead_time

unfoldable pub check_current_limit : CurrentLimitConfig → Checked CurrentLimitConfig
check_current_limit s =
    correct ((acmp_route_for_pin s.pin).cmp == 0) s (record s { pin = 40 })
    then_check (λ s.
        correct (outside 100 3300 s.threshold_millivolts) s
          (record s { threshold_millivolts = 2475 }))
    then_check (λ s. correct (ltb 7 s.filter_count) s (record s { filter_count = 0 }))
    then_check (λ s.
        correct (not (s.filter_count == 0) || not (s.filter_period == 0)) s
          (record s { filter_count = 0; filter_period = 0 }))

-- `s.PhaseOffsetCentiDeg < -18000 || s.PhaseOffsetCentiDeg > 18000`
unfoldable pub phase_outside : ℤ → Bool
phase_outside (pos n) = ltb 18000 n
phase_outside (negsuc n) = ltb 18000 (suc n)

unfoldable pub check_pll_ranges : PllConfig → Checked PllConfig
check_pll_ranges s =
    correct (ltb s.min_hz 1 || ltb 400 s.max_hz || leb s.max_hz s.min_hz) s
      (record s { min_hz = 45; max_hz = 55 })
    then_check (λ s.
        correct (phase_outside s.phase_offset_centi_deg) s
          (record s { phase_offset_centi_deg = pos 0 }))
    then_check (λ s.
        correct (outside 10 500 s.bandwidth_deci_hz) s (record s { bandwidth_deci_hz = 200 }))
    then_check (λ s. correct (ltb 3300 s.zero_millivolts) s (record s { zero_millivolts = 1650 }))
    then_check (λ s.
        correct (outside 20 3300 s.min_level_millivolts) s
          (record s { min_level_millivolts = 100 }))

-- The index ramp and two metering periods.
abbrev pub mppt_floor_ms : ℕ → ℕ
mppt_floor_ms soft_start_ms = 2100 + soft_start_ms

unfoldable pub check_mppt : ℕ → Bool → MpptConfig → Checked MpptConfig
check_mppt soft_start_ms feedback s =
    let floor_ms = mppt_floor_ms soft_start_ms in
    correct (ltb s.interval_ms floor_ms) s
      (record s { interval_ms = if ltb 60000 floor_ms then 60000 else floor_ms })
    then_check (λ s.
        correct (ltb s.restart_delta_mw 100 || leb s.restart_delta_mw s.deadband_mw) s
          (record s { deadband_mw = 10; restart_delta_mw = 1000 }))
    then_check (λ s.
        correct (leb s.max_index_milli s.min_index_milli || ltb 1155 s.max_index_milli) s
          (record s { min_index_milli = 50; max_index_milli = 1000 }))
    then_check (λ s.
        correct
          (ltb s.min_step_milli 1 || ltb s.step_milli s.min_step_milli || ltb 200 s.step_milli) s
          (record s { step_milli = 20; min_step_milli = 5 }))
    then_check (λ s. correct (s.enabled && feedback) s (record s { enabled = false }))

abbrev pub is_empty : Text → Bool
is_empty t = text_equal t []

unfoldable pub check_mqtt : MqttConfig → Checked MqttConfig
check_mqtt s =
    correct (s.port == 0) s (record s { port = 1883 })
    then_check (λ s.
        correct (s.interval_seconds == 0 || ltb 3600 s.interval_seconds) s
          (record s { interval_seconds = 10 }))
    then_check (λ s. correct (is_empty s.base_topic) s (record s { base_topic = codes "teg" }))
    then_check (λ s.
        correct (is_empty s.discovery_prefix) s
          (record s { discovery_prefix = codes "homeassistant" }))

-- src/power_monitor_math.h; the quotient is cut to the source's 32 bits.
unfoldable pub ina226_cal_register : ℕ → ℕ → ℕ
ina226_cal_register shunt_micro_ohm current_lsb_micro_amp =
    if shunt_micro_ohm == 0 || current_lsb_micro_amp == 0
    then 0
    else 5120000000 / (shunt_micro_ohm * current_lsb_micro_amp) % 4294967296

unfoldable pub ina226_cal_valid : ℕ → ℕ → Bool
ina226_cal_valid shunt_micro_ohm current_lsb_micro_amp =
    let cal = ina226_cal_register shunt_micro_ohm current_lsb_micro_amp in
    leb 1 cal && leb cal 0xFFFF

unfoldable pub check_power_mon : PowerMonConfig → Checked PowerMonConfig
check_power_mon s =
    correct (outside 0x40 0x4F s.address) s (record s { address = 0x40 })
    then_check (λ s.
        correct (not (ina226_cal_valid s.shunt_micro_ohm s.current_lsb_micro_amp)) s
          (record s { shunt_micro_ohm = 10000; current_lsb_micro_amp = 50 }))
    then_check (λ s. correct (ltb s.interval_ms 250) s (record s { interval_ms = 250 }))
