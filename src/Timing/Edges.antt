-- ===== src/Timing/Edges.antt =====
-- The order of the edges.
use teg.Prelude.{
  ℕ, ◌+◌, ◌-◌, ◌*◌, ◌/◌, ◌^◌, ◌≤◌, ◌<◌, max, ◌≡◌, refl, inl, inr, true, not, ◌||◌, arith, ltb, leb,
  ◌==◌, Bool-cases,
}
use teg.Prelude.Int.{ℤ, pos, negsuc, to_i16, to_u16}
use teg.Spwm.{best_prescaler_index}
use teg.Timing.{
  AsymmetricTimings, minus, nanos_to_ticks, negative, below, place_edges,
  compute_asymmetric_timings,
}

-- Both pulses begin and end within the period, in order: the counter meets every edge. The registers
-- hold the 16 bits.
pub record IsOrdered (max_counter_value : ℕ) (t : AsymmetricTimings) : Type 0 where
  pub period_end : ℕ
  pub stop_a : ℕ
  pub start_b : ℕ
  pub stop_b : ℕ
  pub period_is : to_u16 t.period_end ≡ period_end
  pub start_a_is : to_u16 t.start_chan_a ≡ 0
  pub stop_a_is : to_u16 t.stop_chan_a ≡ stop_a
  pub start_b_is : to_u16 t.start_chan_b ≡ start_b
  pub stop_b_is : to_u16 t.stop_chan_b ≡ stop_b
  pub pulse_a : (0 < stop_a) × (stop_a ≤ period_end)
  pub pulse_b : (start_b < stop_b) × (stop_b ≤ period_end)
  pub counted : period_end ≤ max_counter_value

small : (n : ℕ) → n < 65536 → to_u16 (to_i16 (pos n)) ≡ n
small n h = ground arith

module _ (max prescaler period_end stop_a : ℕ) (fits : max < 65536)
    (within : period_end ≤ max) where
  place_edges-IsOrdered :
      (start_b stop_b : ℤ)
      → (place_edges prescaler period_end stop_a start_b stop_b).valid ≡ true
      → IsOrdered max (place_edges prescaler period_end stop_a start_b stop_b)
  unfolding place_edges negative below
  place_edges-IsOrdered (pos b) (pos e) h =
      let bad =
        leb stop_a 0
        || ltb period_end stop_a
        || negative (pos b)
        || not (below (pos b) (pos e))
        || below (pos period_end) (pos e) in
      elim (Bool-cases bad) [
        | inl x ↦ absurd (ground arith)
        | inr x ↦ rw x (record {
          period_end = period_end;
          stop_a = stop_a;
          start_b = b;
          stop_b = e;
          period_is = small period_end (omega arith);
          start_a_is = refl;
          stop_a_is = small stop_a (ground arith);
          start_b_is = small b (ground arith);
          stop_b_is = small e (ground arith);
          pulse_a = (ground arith, ground arith);
          pulse_b = (ground arith, ground arith);
          counted = within;
        })
      ]
  place_edges-IsOrdered (pos b) (negsuc e) h = absurd (ground arith)
  place_edges-IsOrdered (negsuc b) stop_b h = absurd (ground arith)

-- Timings that are marked valid can be met: within a period that the counter counts, output A rises
-- at its start and falls by its end, and output B rises and falls after it. The counter and its compare registers have 16 bits.
pub timings-IsOrdered :
    (bus_clock_hz pwm_frequency_hz duty_cycle_a16 : ℕ) (pre_shift_nanos post_shift_nanos : ℤ)
    (max_counter_value : ℕ)
    → max_counter_value < 65536
    → (compute_asymmetric_timings bus_clock_hz pwm_frequency_hz duty_cycle_a16 pre_shift_nanos
        post_shift_nanos max_counter_value).valid
      ≡ true
    → IsOrdered max_counter_value (
        compute_asymmetric_timings bus_clock_hz pwm_frequency_hz duty_cycle_a16 pre_shift_nanos
          post_shift_nanos max_counter_value)
unfolding compute_asymmetric_timings
timings-IsOrdered bus freq duty pre post max fits h =
    let prescaler = best_prescaler_index bus freq max in
    let clock = bus / 2 ^ prescaler in
    let period = (clock + freq / 2) / freq in
    let stop_a = (period * duty + 32768) / 65536 in
    elim (Bool-cases (freq == 0 || bus == 0)) [
      | inl e ↦ absurd (ground arith)
      | inr e ↦ elim (Bool-cases (ltb period 2 || ltb (max + 1) period)) [
        | inl f ↦ absurd (ground arith)
        | inr f ↦
            rw (e, f)
              (place_edges-IsOrdered max prescaler (period - 1) stop_a fits (ground arith)
                (minus stop_a (nanos_to_ticks clock pre))
                (minus (period - 1) (nanos_to_ticks clock post)) (rw (e, f) at h))
      ]
    ]
