-- ===== src/Timing.antt =====
-- src/pwm_timing.h: the edges of the asymmetric induction outputs, in ticks of the divided clock. The
-- products fit the source's 64 bits.
pub mod Edges
use teg.Prelude.{
  ℕ, ◌+◌, ◌-◌, ◌*◌, ◌/◌, ◌^◌, Bool, true, false, not, ◌||◌, ltb, leb, ◌==◌, if◌then◌else◌,
}
use teg.Prelude.Int.{ℤ, pos, negsuc, to_i16}
use teg.Spwm.{best_prescaler_index}

pub record AsymmetricTimings : Type 0 where
  pub valid : Bool
  pub prescaler_index : ℕ
  pub period_start : ℤ
  pub period_end : ℤ
  pub start_chan_a : ℤ
  pub stop_chan_a : ℤ
  pub start_chan_b : ℤ
  pub stop_chan_b : ℤ

-- A difference, and a number with its sign turned.
unfoldable pub minus : ℕ → ℤ → ℤ
minus a (pos b) = if leb b a then pos (a - b) else negsuc (b - a - 1)
minus a (negsuc b) = pos (a + b + 1)

unfoldable pub negated : ℕ → ℤ
negated n = minus 0 (pos n)

-- Rounded to the nearest tick, half away from zero.
unfoldable pub nanos_to_ticks : ℕ → ℤ → ℤ
nanos_to_ticks clock (pos n) = pos ((n * clock + 500000000) / 1000000000)
nanos_to_ticks clock (negsuc n) = negated (((n + 1) * clock + 500000000) / 1000000000)

unfoldable pub negative : ℤ → Bool
negative (pos n) = false
negative (negsuc n) = true

-- `a < b`
unfoldable pub below : ℤ → ℤ → Bool
below (pos a) (pos b) = ltb a b
below (pos a) (negsuc b) = false
below (negsuc a) (pos b) = true
below (negsuc a) (negsuc b) = ltb b a

-- The result before any edge is set.
abbrev pub no_timings : ℕ → AsymmetricTimings
no_timings prescaler = record {
  valid = false;
  prescaler_index = prescaler;
  period_start = pos 0;
  period_end = pos 0;
  start_chan_a = pos 0;
  stop_chan_a = pos 0;
  start_chan_b = pos 0;
  stop_chan_b = pos 0;
}

-- The part after the period: `period_end` and the three computed edges.
unfoldable pub place_edges : ℕ → ℕ → ℕ → ℤ → ℤ → AsymmetricTimings
place_edges prescaler period_end stop_a start_b stop_b =
    if leb stop_a 0
      || ltb period_end stop_a
      || negative start_b
      || not (below start_b stop_b)
      || below (pos period_end) stop_b
    then no_timings prescaler
    else (record {
      valid = true;
      prescaler_index = prescaler;
      period_start = pos 0;
      period_end = to_i16 (pos period_end);
      start_chan_a = pos 0;
      stop_chan_a = to_i16 (pos stop_a);
      start_chan_b = to_i16 start_b;
      stop_chan_b = to_i16 stop_b;
    })

unfoldable pub compute_asymmetric_timings : ℕ → ℕ → ℕ → ℤ → ℤ → ℕ → AsymmetricTimings
compute_asymmetric_timings bus_clock_hz pwm_frequency_hz duty_cycle_a16 pre_shift_nanos
      post_shift_nanos max_counter_value =
    let prescaler = best_prescaler_index bus_clock_hz pwm_frequency_hz max_counter_value in
    let clock = bus_clock_hz / 2 ^ prescaler in
    let period = (clock + pwm_frequency_hz / 2) / pwm_frequency_hz in
    let stop_a = (period * duty_cycle_a16 + 32768) / 65536 in
    if pwm_frequency_hz == 0 || bus_clock_hz == 0
    then no_timings 0
    else if ltb period 2 || ltb (max_counter_value + 1) period
    then no_timings prescaler
    else place_edges prescaler (period - 1) stop_a
        (minus stop_a (nanos_to_ticks clock pre_shift_nanos))
        (minus (period - 1) (nanos_to_ticks clock post_shift_nanos))
