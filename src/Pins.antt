-- ===== src/Pins.antt =====
-- src/pin_ownership.h: which function of the board owns which header pin. A configuration is a
-- record of the settings that the validation reads; a role is a bit, its number the exponent.
pub mod Placed
pub mod Exclusive
use teg.Prelude.{
  ℕ, ◌-◌, ◌^◌, Bool, true, false, not, ◌&&◌, ◌||◌, List, [], ◌∷◌, ◌++◌, ltb, leb, ◌==◌,
  if◌then◌else◌, get_or, set, replicate, bit_and, bit_or,
}

abbrev pub teensy41_last_pin : ℕ
teensy41_last_pin = 41

abbrev pub pin_role_pwm : ℕ
pin_role_pwm = 2 ^ 0

abbrev pub pin_role_trigger : ℕ
pin_role_trigger = 2 ^ 1

abbrev pub pin_role_wire : ℕ
pin_role_wire = 2 ^ 2

abbrev pub pin_role_wire2 : ℕ
pin_role_wire2 = 2 ^ 3

abbrev pub pin_role_feedback_adc : ℕ
pin_role_feedback_adc = 2 ^ 4

abbrev pub pin_role_meter_current : ℕ
pin_role_meter_current = 2 ^ 5

abbrev pub pin_role_current_limit : ℕ
pin_role_current_limit = 2 ^ 6

abbrev pub pin_role_gpio_fault : ℕ
pin_role_gpio_fault = 2 ^ 7

abbrev pub pin_role_one_wire : ℕ
pin_role_one_wire = 2 ^ 8

abbrev pub pin_role_power_monitor : ℕ
pin_role_power_monitor = 2 ^ 9

abbrev pub pin_role_imon_adc : ℕ
pin_role_imon_adc = 2 ^ 10

-- A setting that is enabled or not, and its pin.
pub record PinSetting : Type 0 where
  pub enabled : Bool
  pub pin : ℕ

pub record PinConfig : Type 0 where
  pub feedback : PinSetting
  pub capture_enabled : Bool
  pub pll_enabled : Bool
  pub meter : PinSetting
  pub current_limit : PinSetting
  pub fault_protection : PinSetting
  pub thermal : PinSetting
  pub power_mon_enabled : Bool
  pub pg_efuse_pin : ℕ
  pub pg_buck_pin : ℕ
  pub alert_pin : ℕ
  pub imon_pin : ℕ

-- The claims so far, or the result of the claim that failed.
pub data Claims : Type 0 where
  claimed : List ℕ → Claims
  conflict : (pin existing requested : ℕ) → Claims

unfoldable pub teensy41_analog_pin : ℕ → Bool
teensy41_analog_pin pin = (leb 14 pin && leb pin 27) || (leb 38 pin && leb pin 41)

pub data RoleName : Type 0 where
  pwm_output trigger_led oled_i2c power_monitor_i2c feedback_capture_adc meter_current_adc :
      RoleName
  hardware_current_limit gpio_fault one_wire_temperature power_monitor_digital imon_adc : RoleName
  unknown : RoleName

unfoldable pub pin_role_name : ℕ → RoleName
pin_role_name role =
    if role == pin_role_pwm
    then pwm_output
    else if role == pin_role_trigger
    then trigger_led
    else if role == pin_role_wire
    then oled_i2c
    else if role == pin_role_wire2
    then power_monitor_i2c
    else if role == pin_role_feedback_adc
    then feedback_capture_adc
    else if role == pin_role_meter_current
    then meter_current_adc
    else if role == pin_role_current_limit
    then hardware_current_limit
    else if role == pin_role_gpio_fault
    then gpio_fault
    else if role == pin_role_one_wire
    then one_wire_temperature
    else if role == pin_role_power_monitor
    then power_monitor_digital
    else if role == pin_role_imon_adc
    then imon_adc
    else unknown

-- The roles are 16-bit numbers: `x & ~currentSense` is `bit_and x (65535 - 96)`.
unfoldable pub pin_roles_compatible : ℕ → ℕ → Bool
pin_roles_compatible existing requested = bit_and (bit_or existing requested) (65535 - 96) == 0

unfoldable pub claim : List ℕ → ℕ → ℕ → Bool → Claims
claim claims pin role analog =
    let held = get_or claims pin 0 in
    if ltb teensy41_last_pin pin || (analog && not (teensy41_analog_pin pin))
    then conflict pin 0 role
    else if not (held == 0) && not (pin_roles_compatible held role)
    then conflict pin held role
    else claimed (set claims pin (bit_or held role))

pub record Request : Type 0 where
  pub pin : ℕ
  pub role : ℕ
  pub analog : Bool

abbrev pub request : ℕ → ℕ → Bool → Request
request pin role analog = record { pin = pin; role = role; analog = analog }

abbrev pub when : Bool → ℕ → ℕ → Bool → List Request
when enabled pin role analog = if enabled then request pin role analog ∷ [] else []

abbrev pub digital : ℕ → List ℕ → List Request
digital role [] = []
digital role (pin ∷ pins) = request pin role false ∷ digital role pins

abbrev pub pwm_pins : List ℕ
pwm_pins = 2 ∷ 3 ∷ 4 ∷ 5 ∷ 6 ∷ 7 ∷ 8 ∷ 9 ∷ 22 ∷ 23 ∷ 28 ∷ 29 ∷ 33 ∷ 36 ∷ 37 ∷ []

abbrev pub power_mon_requests : PinConfig → List Request
power_mon_requests cfg =
    digital pin_role_wire2 (24 ∷ 25 ∷ [])
    ++ when (not (cfg.pg_efuse_pin == 255)) cfg.pg_efuse_pin pin_role_power_monitor false
    ++ when (not (cfg.pg_buck_pin == 255)) cfg.pg_buck_pin pin_role_power_monitor false
    ++ when (not (cfg.alert_pin == 255)) cfg.alert_pin pin_role_power_monitor false
    ++ when (not (cfg.imon_pin == 255)) cfg.imon_pin pin_role_imon_adc true

-- The calls of `claim`, in their order.
unfoldable pub requests : PinConfig → List Request
requests cfg =
    digital pin_role_pwm pwm_pins
    ++ (request 13 pin_role_trigger false ∷ digital pin_role_wire (18 ∷ 19 ∷ []))
    ++ when (cfg.feedback.enabled || cfg.capture_enabled || cfg.pll_enabled) cfg.feedback.pin
        pin_role_feedback_adc true
    ++ when cfg.meter.enabled cfg.meter.pin pin_role_meter_current true
    ++ when cfg.current_limit.enabled cfg.current_limit.pin pin_role_current_limit true
    ++ when cfg.fault_protection.enabled cfg.fault_protection.pin pin_role_gpio_fault false
    ++ when cfg.thermal.enabled cfg.thermal.pin pin_role_one_wire false
    ++ (if cfg.power_mon_enabled then power_mon_requests cfg else [])

-- The claims in turn; the first that fails ends the validation.
unfoldable pub claim_from : Claims → List Request → Claims
claim_from (conflict pin existing requested) rs = conflict pin existing requested
claim_from (claimed claims) [] = claimed claims
claim_from (claimed claims) (r ∷ rs) = claim_from (claim claims r.pin r.role r.analog) rs

unfoldable pub validate_pin_ownership : PinConfig → Claims
validate_pin_ownership cfg = claim_from (claimed (replicate 42 0)) (requests cfg)
