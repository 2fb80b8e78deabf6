-- ===== src/Config/Checks/Settled.antt =====
-- What the checks of a section leave, and that they leave such a section alone.
use teg.Prelude.{ℕ, ◌≤◌, ◌≡◌, refl, false, arith}
use teg.Pair.{
  pwm_bus_clock_hz, pair_max_dead_time_ns, pair_is_complementary, pair_has_channel_b,
  pair_allows_complementary, pair_mode_sanitised,
}
use teg.Config.Types.{SubmoduleConfig}
use teg.Config.Checks.{
  sanitise_pair, clamp_freq, clamp_dead_time, follow_carrier, check_fixed, check_cell,
}

pub record IsFixed (submodule : ℕ) (s : SubmoduleConfig) : Type 0 where
  pub mode : pair_mode_sanitised s.pair submodule ≡ s.pair
  pub slow : 18 ≤ s.pwm_frequency
  pub fast : s.pwm_frequency ≤ 1000000
  pub gap : s.dead_time ≤ 13646

pub record IsCell (carrier submodule : ℕ) (s : SubmoduleConfig) : Type 0 where
  pub mode : pair_mode_sanitised s.pair submodule ≡ s.pair
  pub follows : s.pwm_frequency ≡ carrier
  pub gap : s.dead_time ≤ 13646

sanitised_idem :
    (m k : ℕ) → pair_mode_sanitised (pair_mode_sanitised m k) k ≡ pair_mode_sanitised m k
unfolding pair_mode_sanitised pair_is_complementary pair_allows_complementary pair_has_channel_b
sanitised_idem m k = ground arith

pub longest_gap : pair_max_dead_time_ns pwm_bus_clock_hz ≡ 13646
unfolding pair_max_dead_time_ns
longest_gap = refl

module _ (submodule : ℕ) (s : SubmoduleConfig) where
  pub check_fixed-IsFixed : IsFixed submodule (check_fixed submodule s).1
  unfolding check_fixed sanitise_pair clamp_freq clamp_dead_time
  check_fixed-IsFixed = record {
    mode = ground (arith, sanitised_idem s.pair submodule, longest_gap);
    slow = ground (arith, longest_gap);
    fast = ground (arith, longest_gap);
    gap = ground (arith, longest_gap);
  }

  pub check_fixed-settled : IsFixed submodule s → check_fixed submodule s ≡ (false, s)
  unfolding check_fixed sanitise_pair clamp_freq clamp_dead_time
  check_fixed-settled h = ground (arith, h.mode, h.slow, h.fast, h.gap, longest_gap)

  pub check_cell-IsCell :
      (carrier : ℕ) → IsCell carrier submodule (check_cell carrier submodule s).1
  unfolding check_cell sanitise_pair follow_carrier clamp_dead_time
  check_cell-IsCell carrier = record {
    mode = ground (arith, sanitised_idem s.pair submodule, longest_gap);
    follows = ground (arith, longest_gap);
    gap = ground (arith, longest_gap);
  }

  pub check_cell-settled :
      (carrier : ℕ) → IsCell carrier submodule s → check_cell carrier submodule s ≡ (false, s)
  unfolding check_cell sanitise_pair follow_carrier clamp_dead_time
  check_cell-settled carrier h = ground (arith, h.mode, h.follows, h.gap, longest_gap)
