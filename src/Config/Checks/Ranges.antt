-- ===== src/Config/Checks/Ranges.antt =====
-- What the checks of the other sections leave, and that they leave such a section alone.
use teg.Prelude.{ℕ, ◌+◌, ◌≤◌, ◌<◌, min, ◌≡◌, refl, ◌≢◌, Bool, true, false, ◌&&◌, arith}
use teg.Prelude.Int.{pos}
use teg.Acmp.{acmp_route_for_pin}
use teg.Config.Types.{CurrentLimitConfig, MqttConfig, PllConfig, MpptConfig, PowerMonConfig}
use teg.Config.Checks.{
  check_current_limit, phase_outside, check_pll_ranges, check_mppt, is_empty, check_mqtt,
  ina226_cal_register, ina226_cal_valid, check_power_mon,
}

-- The overcurrent comparator watches a pin that it can reach, at a threshold in range, without a
-- filter.
pub record IsGuard (s : CurrentLimitConfig) : Type 0 where
  pub reachable : (acmp_route_for_pin s.pin).cmp ≢ 0
  pub low : 100 ≤ s.threshold_millivolts
  pub high : s.threshold_millivolts ≤ 3300
  pub count : s.filter_count ≡ 0
  pub period : s.filter_period ≡ 0

pin_40 : (acmp_route_for_pin 40).cmp ≢ 0
unfolding acmp_route_for_pin
pin_40 = ground arith

module _ (s : CurrentLimitConfig) where
  pub check_current_limit-IsGuard : IsGuard (check_current_limit s).1
  unfolding check_current_limit
  check_current_limit-IsGuard = record {
    reachable = ground (arith, pin_40);
    low = ground arith;
    high = ground arith;
    count = ground arith;
    period = ground arith;
  }

  pub check_current_limit-settled : IsGuard s → check_current_limit s ≡ (false, s)
  unfolding check_current_limit
  check_current_limit-settled h = ground (arith, h.reachable, h.low, h.high, h.count, h.period)

pub record IsLoop (s : PllConfig) : Type 0 where
  pub positive : 1 ≤ s.min_hz
  pub window : s.min_hz < s.max_hz
  pub top : s.max_hz ≤ 400
  pub phase : phase_outside s.phase_offset_centi_deg ≡ false
  pub narrow : 10 ≤ s.bandwidth_deci_hz
  pub wide : s.bandwidth_deci_hz ≤ 500
  pub zero_level : s.zero_millivolts ≤ 3300
  pub floor : 20 ≤ s.min_level_millivolts
  pub ceiling : s.min_level_millivolts ≤ 3300

phase_zero : phase_outside (pos 0) ≡ false
unfolding phase_outside
phase_zero = refl

module _ (s : PllConfig) where
  pub check_pll_ranges-IsLoop : IsLoop (check_pll_ranges s).1
  unfolding check_pll_ranges
  check_pll_ranges-IsLoop = record {
    positive = ground arith;
    window = ground arith;
    top = ground arith;
    phase = ground (arith, phase_zero);
    narrow = ground arith;
    wide = ground arith;
    zero_level = ground arith;
    floor = ground arith;
    ceiling = ground arith;
  }

  pub check_pll_ranges-settled : IsLoop s → check_pll_ranges s ≡ (false, s)
  unfolding check_pll_ranges
  check_pll_ranges-settled h = ground (
    arith, h.positive, h.window, h.top, h.phase, h.narrow, h.wide, h.zero_level, h.floor, h.ceiling,
  )

pub record IsTracker (feedback : Bool) (s : MpptConfig) : Type 0 where
  pub shift : 100 ≤ s.restart_delta_mw
  pub noise : s.deadband_mw < s.restart_delta_mw
  pub index : s.min_index_milli < s.max_index_milli
  pub top : s.max_index_milli ≤ 1155
  pub small : 1 ≤ s.min_step_milli
  pub steps : s.min_step_milli ≤ s.step_milli
  pub large : s.step_milli ≤ 200
  pub alone : (s.enabled && feedback) ≡ false

module _ (soft_start : ℕ) (feedback : Bool) (s : MpptConfig) where
  pub check_mppt-IsTracker : IsTracker feedback (check_mppt soft_start feedback s).1
  unfolding check_mppt
  check_mppt-IsTracker = record {
    shift = ground arith;
    noise = ground arith;
    index = ground arith;
    top = ground arith;
    small = ground arith;
    steps = ground arith;
    large = ground arith;
    alone = ground arith;
  }

  -- The cadence that the check leaves.
  pub check_mppt-interval :
      min (2100 + soft_start) 60000 ≤ (check_mppt soft_start feedback s).1.interval_ms
  unfolding check_mppt
  check_mppt-interval = ground arith

  pub check_mppt-short :
      s.interval_ms < 2100 + soft_start
      → 60000 < 2100 + soft_start
      → (check_mppt soft_start feedback s).1.interval_ms ≡ 60000
  unfolding check_mppt
  check_mppt-short short long = ground arith

  pub check_mppt-settled :
      IsTracker feedback s
      → 2100 + soft_start ≤ s.interval_ms
      → check_mppt soft_start feedback s ≡ (false, s)
  unfolding check_mppt
  check_mppt-settled h slow =
      ground (arith, h.shift, h.noise, h.index, h.top, h.small, h.steps, h.large, h.alone)

pub record IsBroker (s : MqttConfig) : Type 0 where
  pub port : s.port ≢ 0
  pub often : 1 ≤ s.interval_seconds
  pub hourly : s.interval_seconds ≤ 3600
  pub topic : is_empty s.base_topic ≡ false
  pub prefix : is_empty s.discovery_prefix ≡ false

module _ (s : MqttConfig) where
  pub check_mqtt-IsBroker : IsBroker (check_mqtt s).1
  unfolding check_mqtt
  check_mqtt-IsBroker = record {
    port = ground arith;
    often = ground arith;
    hourly = ground arith;
    topic = ground arith;
    prefix = ground arith;
  }

  pub check_mqtt-settled : IsBroker s → check_mqtt s ≡ (false, s)
  unfolding check_mqtt
  check_mqtt-settled h = ground (arith, h.port, h.often, h.hourly, h.topic, h.prefix)

pub record IsMonitor (s : PowerMonConfig) : Type 0 where
  pub low : 0x40 ≤ s.address
  pub high : s.address ≤ 0x4F
  pub calibration : ina226_cal_valid s.shunt_micro_ohm s.current_lsb_micro_amp ≡ true
  pub cadence : 250 ≤ s.interval_ms

board_calibration : ina226_cal_valid 10000 50 ≡ true
unfolding ina226_cal_valid ina226_cal_register
board_calibration = refl

module _ (s : PowerMonConfig) where
  pub check_power_mon-IsMonitor : IsMonitor (check_power_mon s).1
  unfolding check_power_mon
  check_power_mon-IsMonitor = record {
    low = ground arith;
    high = ground arith;
    calibration = ground (arith, board_calibration);
    cadence = ground arith;
  }

  pub check_power_mon-settled : IsMonitor s → check_power_mon s ≡ (false, s)
  unfolding check_power_mon
  check_power_mon-settled h = ground (arith, h.low, h.high, h.calibration, h.cadence)
