-- ===== src/Tests/Board.antt =====
-- The output pairs, the comparator and the power point tracker at concrete inputs.
use teg.Prelude.{ℕ, ◌≡◌, refl, false, [], ◌∷◌, arith, List, true}
use teg.Pins.{
  PinSetting, PinConfig, claimed, Claims, claim_from, claim, requests, validate_pin_ownership,
  teensy41_analog_pin, pin_roles_compatible,
}
use teg.Pins.Exclusive.{IsExclusive, validate-IsExclusive}
use teg.Prelude.Int.{pos, negsuc}
use teg.Mppt.{MpptParams, mppt_init}
use teg.Mppt.Bounds.{IsValid, track, run-IsValid}

abbrev defaults : MpptParams
defaults = record {
  min_index_milli = 50;
  max_index_milli = 1000;
  step_max_milli = 20;
  step_min_milli = 5;
  deadband_mw = 10;
  restart_delta_mw = 1000;
}

run-IsValid_example :
    IsValid defaults (track defaults (mppt_init 500 defaults) (pos 100 ∷ pos 150 ∷ negsuc 3 ∷ []))
run-IsValid_example = run-IsValid defaults 500 (pos 100 ∷ pos 150 ∷ negsuc 3 ∷ []) (record {
  ordered = omega arith;
  wide = omega arith;
  step_wide = omega arith;
  steps = omega arith;
})

abbrev off : PinSetting
off = record { enabled = false; pin = 0 }

-- The meter and the current limit share pin 40.
abbrev board : PinConfig
board = record {
  feedback = off;
  capture_enabled = false;
  pll_enabled = false;
  meter = record { enabled = true; pin = 40 };
  current_limit = record { enabled = true; pin = 40 };
  fault_protection = off;
  thermal = off;
  power_mon_enabled = false;
  pg_efuse_pin = 255;
  pg_buck_pin = 255;
  alert_pin = 255;
  imon_pin = 255;
}

claims_of : Claims → List ℕ
claims_of (claimed claims) = claims
claims_of _ = []

accepted : validate_pin_ownership board ≡ claimed (claims_of (validate_pin_ownership board))
unfolding validate_pin_ownership claim_from claim requests teensy41_analog_pin pin_roles_compatible
    claims_of
accepted = refl

validate-IsExclusive_example : IsExclusive (requests board)
validate-IsExclusive_example =
    validate-IsExclusive board (claims_of (validate_pin_ownership board)) accepted
