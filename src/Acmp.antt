-- ===== src/Acmp.antt =====
-- src/acmp_math.h: the tables and register values of the comparator that trips on overcurrent.
-- Registers are 16-bit numbers; `x & ~m` is `bit_and x (65535 - m)`.
pub mod Route
pub mod Dac
use teg.Prelude.{
  ℕ, ◌+◌, ◌-◌, ◌*◌, ◌/◌, Bool, true, false, ◌||◌, List, [], ◌∷◌, ltb, ◌==◌, if◌then◌else◌, bit_and,
  bit_or,
}
use teg.Prelude.Words.{u8, u16, u32}

pub record AcmpRoute : Type 0 where
  pub cmp : ℕ
  pub psel : ℕ

pub record AcmpPwmTarget : Type 0 where
  pub module_number : ℕ
  pub submodule_mask : ℕ
  pub xbar_fault0_output : ℕ
  pub irq_owner : Bool

abbrev pub acmp_pwm_targets : List AcmpPwmTarget
acmp_pwm_targets =
    record { module_number = 1; submodule_mask = 0x08; xbar_fault0_output = 35; irq_owner = false }
    ∷ record { module_number = 2; submodule_mask = 0x0F; xbar_fault0_output = 49; irq_owner = true }
    ∷ []

unfoldable pub acmp_map_fault0_to_ab : ℕ → ℕ
acmp_map_fault0_to_ab dismap = u16 (bit_or (bit_or (bit_and dismap (65535 - 0x0100)) 0x0001) 0x0010)

unfoldable pub acmp_fault_filter_available : ℕ → Bool
acmp_fault_filter_available current = bit_and current (65535 - 0x8000) == 0

unfoldable pub acmp_fault_filter_with_glitch_stretch : ℕ → ℕ
acmp_fault_filter_with_glitch_stretch current = u16 (bit_or current 0x8000)

-- The mask is FIE, FSAFE, FAUTO and FLVL of fault 0.
unfoldable pub acmp_fault0_control : ℕ → Bool → Bool → ℕ
acmp_fault0_control current cycle_by_cycle interrupt_owner =
    let cleared = u16 (bit_and current (65535 - 0x1111)) in
    let active_high = u16 (bit_or cleared 0x1000) in
    if cycle_by_cycle
    then u16 (bit_or active_high 0x0100)
    else u16 (bit_or (bit_or active_high 0x0010) (if interrupt_owner then 0x0001 else 0))

abbrev pub route : ℕ → ℕ → AcmpRoute
route c p = record { cmp = c; psel = p }

unfoldable pub acmp_route_for_pin : ℕ → AcmpRoute
acmp_route_for_pin pin =
    if pin == 18
    then route 1 0
    else if pin == 17
    then route 1 1
    else if pin == 25
    then route 1 2
    else if pin == 14
    then route 1 3
    else if pin == 16
    then route 1 5
    else if pin == 21
    then route 1 6
    else if pin == 15
    then route 2 3
    else if pin == 38
    then route 2 6
    else if pin == 40
    then route 3 3
    else if pin == 1
    then route 3 4
    else if pin == 23
    then route 0 0
    else if pin == 22
    then route 0 0
    else if pin == 39
    then route 3 6
    else if pin == 19
    then route 4 2
    else if pin == 41
    then route 4 3
    else if pin == 0
    then route 4 4
    else if pin == 20
    then route 4 5
    else if pin == 26
    then route 4 6
    else route 0 0

unfoldable pub acmp_xbar_input_for_cmp : ℕ → ℕ
acmp_xbar_input_for_cmp cmp = u8 (25 + cmp)

-- `code` is signed in the source: it is below 0 where the quotient is 0.
unfoldable pub acmp_threshold_to_dac_code : ℕ → ℕ → ℕ
acmp_threshold_to_dac_code threshold_mv vin_mv =
    let quotient = (threshold_mv * 64 + vin_mv / 2) / vin_mv in
    if vin_mv == 0
    then 0
    else if quotient == 0
    then 0
    else if ltb 63 (quotient - 1)
    then 63
    else quotient - 1

unfoldable pub acmp_dac_code_to_mv : ℕ → ℕ → ℕ
acmp_dac_code_to_mv code vin_mv =
    let top = if ltb 63 code then 63 else code in u16 ((top + 1) * vin_mv / 64)

unfoldable pub acmp_filter_glitch_nanos : ℕ → ℕ → ℕ → ℕ
acmp_filter_glitch_nanos filter_count filter_period bus_hz =
    if filter_count == 0 || filter_period == 0 || bus_hz == 0
    then 0
    else u32 (filter_count * filter_period * 1000000000 / bus_hz)
