-- ===== src/Pair/DeadTime.antt =====
-- src/pwm_pair.h: the gap of a half-bridge, in cycles of the bus clock.
use teg.Prelude.{ℕ, ◌*◌, ◌/◌, ◌≤◌, ◌<◌, ◌^◌, ◌≡◌, refl, arith}
use teg.Pair.PairMode.{half_bridge}
use teg.Pair.{
  pair_dead_time_cycles, pair_dead_time_ns, pair_max_dead_time_ns, pair_uses_dead_time,
  pwm_bus_clock_hz,
}

longest : pair_max_dead_time_ns pwm_bus_clock_hz ≡ 13646
unfolding pair_max_dead_time_ns
longest = refl

cycles : (ns : ℕ) → pair_dead_time_cycles ns pwm_bus_clock_hz ≤ 2047
unfolding pair_dead_time_cycles
cycles ns = ground arith

ns_range :
    (configured : ℕ)
    → (150 ≤ pair_dead_time_ns half_bridge configured)
      × (pair_dead_time_ns half_bridge configured ≤ 13646)
unfolding pair_dead_time_ns pair_uses_dead_time
ns_range configured = ground (arith, longest)

-- Whatever was configured, a half-bridge is programmed with a gap of at least 22 cycles that the
-- 11-bit register holds, and which is the gap in nanoseconds at the bus clock, not saturated.
pub half_bridge-dead_time :
    (configured : ℕ)
    → let ns = pair_dead_time_ns half_bridge configured in
      let cycles = pair_dead_time_cycles ns pwm_bus_clock_hz in
      (22 ≤ cycles) × (cycles < 2 ^ 11) × (150 ≤ ns) × (cycles ≡ ns * 150000000 / 1000000000)
unfolding pair_dead_time_cycles
half_bridge-dead_time configured = let r = ns_range configured in ground (arith, r)
