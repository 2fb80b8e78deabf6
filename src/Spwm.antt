-- ===== src/Spwm.antt =====
-- src/spwm_math.h: the integer arithmetic of the sine modulation, and the choice of a prescaler.
pub mod Duty
use teg.Prelude.{ℕ, zero, suc, ◌+◌, ◌-◌, ◌*◌, ◌/◌, ◌%◌, ◌^◌, ◌&&◌, ltb, leb, if◌then◌else◌}
use teg.Prelude.Words.{u16, u32}

unfoldable pub spwm_phase_increment : ℕ → ℕ → ℕ
spwm_phase_increment carrier_hz modulation_hz =
    if ltb 0 carrier_hz then u32 (modulation_hz * 2 ^ 32 / carrier_hz) else 0

unfoldable pub spwm_actual_milli_hz : ℕ → ℕ → ℕ
spwm_actual_milli_hz phase_increment carrier_hz =
    phase_increment * carrier_hz * 1000 % 2 ^ 64 / 2 ^ 32

-- The table is a function of the index. A shift of a negative number rounds down.
unfoldable pub spwm_duty_from_phase : (ℕ → ℕ) → ℕ → ℕ
spwm_duty_from_phase lut phase =
    let idx = phase / 2 ^ 21 in
    let frac = phase / 2 ^ 13 % 256 in
    let a = lut idx in
    let b = lut ((idx + 1) % 2048) in
    u16 (if leb a b then a + (b - a) * frac / 256 else a - ((a - b) * frac + 255) / 256)

-- The loop at the index `i`, with the rounds left first.
unfoldable pub prescaler_from : ℕ → ℕ → ℕ → ℕ → ℕ → ℕ
prescaler_from zero i bus_clock_hz pwm_frequency_hz max_counter_value = 7
prescaler_from (suc rounds) i bus_clock_hz pwm_frequency_hz max_counter_value =
    let rest = prescaler_from rounds (i + 1) bus_clock_hz pwm_frequency_hz max_counter_value in
    let effective_clock = bus_clock_hz / 2 ^ i in
    if ltb 0 pwm_frequency_hz && leb (effective_clock / pwm_frequency_hz) max_counter_value
    then i
    else rest

unfoldable pub best_prescaler_index : ℕ → ℕ → ℕ → ℕ
best_prescaler_index bus_clock_hz pwm_frequency_hz max_counter_value =
    prescaler_from 8 0 bus_clock_hz pwm_frequency_hz max_counter_value
