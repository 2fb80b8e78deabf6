-- ===== src/Modulation.antt =====
-- src/modulation.h: the integer parts of the modulation. Cells, schemes and dispositions are bytes, as
-- in the source; the ramp counts in 2^-24 of an index step.
pub mod Ramp
pub mod Plan
pub mod Bands
pub mod Pipeline
use teg.Prelude.{
  ℕ, zero, suc, ◌+◌, ◌-◌, ◌*◌, ◌/◌, ◌%◌, ◌^◌, Bool, true, false, not, ◌||◌, ltb, leb, ◌==◌,
  if◌then◌else◌, bit_xor,
}
use teg.Prelude.Words.{u16, u32}

-- The schemes that the code names.
abbrev pub mod_scheme_spwm_unipolar : ℕ
mod_scheme_spwm_unipolar = 1

abbrev pub mod_scheme_spwm_bipolar : ℕ
mod_scheme_spwm_bipolar = 2

abbrev pub mod_scheme_thipwm : ℕ
mod_scheme_thipwm = 3

abbrev pub mod_scheme_level_shifted : ℕ
mod_scheme_level_shifted = 4

abbrev pub mod_scheme_phase_shifted : ℕ
mod_scheme_phase_shifted = 5

abbrev pub mod_scheme_svpwm : ℕ
mod_scheme_svpwm = 6

abbrev pub mod_scheme_dpwm : ℕ
mod_scheme_dpwm = 7

abbrev pub mod_scheme_svpwm3d : ℕ
mod_scheme_svpwm3d = 8

abbrev pub carrier_pod : ℕ
carrier_pod = 1

abbrev pub carrier_apod : ℕ
carrier_apod = 2

pub record CellPlan : Type 0 where
  pub polarity_inverted : Bool
  pub duty_complement : Bool

abbrev pub odd : ℕ → Bool
odd cell = not (cell % 2 == 0)

abbrev pub plan : Bool → Bool → CellPlan
plan inverted complement = record { polarity_inverted = inverted; duty_complement = complement }

unfoldable pub modulation_cell_plan : ℕ → ℕ → ℕ → ℕ → CellPlan
modulation_cell_plan scheme disposition cell num_cells =
    let low = ltb cell (num_cells / 2) in
    if scheme == mod_scheme_spwm_unipolar || scheme == mod_scheme_thipwm
    then plan false (odd cell)
    else if scheme == mod_scheme_spwm_bipolar
    then plan (odd cell) false
    else if scheme == mod_scheme_phase_shifted
    then plan (odd cell) (odd cell)
    else if scheme == mod_scheme_level_shifted
    then (if disposition == carrier_pod
        then plan low low
        else if disposition == carrier_apod
        then plan (odd cell) (odd cell)
        else plan false false)
    else plan false false

-- The loop from `cell` on, with the rounds left first.
unfoldable pub inverts_from : ℕ → ℕ → ℕ → ℕ → ℕ → Bool
inverts_from zero cell scheme disposition cells = false
inverts_from (suc rounds) cell scheme disposition cells =
    let rest = inverts_from rounds (cell + 1) scheme disposition cells in
    if (modulation_cell_plan scheme disposition cell cells).polarity_inverted then true else rest

unfoldable pub scheme_requires_polarity_inversion : ℕ → ℕ → ℕ → Bool
scheme_requires_polarity_inversion scheme disposition cells =
    inverts_from cells 0 scheme disposition cells

unfoldable pub ls_cell_duty : ℕ → ℕ → ℕ → Bool → ℕ
ls_cell_duty ref cell num_cells nearest_level =
    let scaled = ref * num_cells in
    let band_start = cell * 2 ^ 16 in
    let d = scaled - band_start in
    if leb scaled band_start
    then 0
    else if nearest_level
    then (if leb 32768 d then 65535 else 0)
    else if leb 65535 d
    then 65535
    else d

unfoldable pub modulation_cell_duty : ℕ → ℕ → ℕ → ℕ → Bool → ℕ
modulation_cell_duty scheme ref cell num_cells nearest_level =
    if scheme == mod_scheme_level_shifted
    then ls_cell_duty ref cell num_cells nearest_level
    else ref

unfoldable pub modulation_final_duty : ℕ → CellPlan → ℕ
modulation_final_duty cell_duty p = if p.duty_complement then 65535 - cell_duty else cell_duty

unfoldable pub modulation_cell_count : ℕ → ℕ → ℕ
modulation_cell_count scheme cells =
    if scheme == mod_scheme_svpwm || scheme == mod_scheme_dpwm
    then 3
    else if scheme == mod_scheme_svpwm3d
    then 4
    else cells

unfoldable pub index_milli_to_q15 : ℕ → ℕ
index_milli_to_q15 index_milli = index_milli * 2 ^ 15 / 1000

-- `n` is at least 2.
unfoldable pub triangle_index : ℕ → ℕ → ℕ
triangle_index counter n = let m = counter % (2 * (n - 1)) in if ltb m n then m else 2 * (n - 1) - m

-- The mask is 0xB400 where the low bit is set, and 0 otherwise.
unfoldable pub next_lfsr16 : ℕ → ℕ
next_lfsr16 s = bit_xor (s / 2) (if s % 2 == 0 then 0 else 0xB400)

abbrev pub dither_table_size : ℕ
dither_table_size = 16

abbrev pub max_dither_percent : ℕ
max_dither_percent = 30

-- An entry of the tables: the period and the phase increment of a cycle of that length.
unfoldable pub dither_entry : ℕ → ℕ → ℕ → ℕ → ℕ → ℕ × ℕ
dither_entry effective_clock_hz carrier_hz modulation_hz dither_percent i =
    let percent =
      if ltb max_dither_percent dither_percent then max_dither_percent else dither_percent in
    let nominal = if ltb 0 carrier_hz then effective_clock_hz / carrier_hz else 2 in
    let span = nominal * percent % 2 ^ 32 / 100 in
    let period =
      (nominal + 2 ^ 32 - span + 2 * span * i % 2 ^ 32 / (dither_table_size - 1)) % 2 ^ 32 in
    (u16 period, u32 (modulation_hz * period * 2 ^ 32 % 2 ^ 64 / effective_clock_hz))

abbrev pub soft_start_instant : ℕ
soft_start_instant = 18446744073709551615

unfoldable pub soft_start_step_q24 : ℕ → ℕ → ℕ → ℕ
soft_start_step_q24 target_q15 ramp_ms carrier_hz =
    let steps = ramp_ms * carrier_hz / 1000 in
    let distance = target_q15 * 2 ^ 24 in
    let step = (distance + steps - 1) / steps in
    if steps == 0 then soft_start_instant else if step == 0 then 1 else step

unfoldable pub ramp_index_q24 : ℕ → ℕ → ℕ → ℕ
ramp_index_q24 current_q24 target_q15 step_q24 =
    let target_q24 = target_q15 * 2 ^ 24 in
    if step_q24 == soft_start_instant
    then target_q24
    else if ltb current_q24 target_q24
    then (if ltb step_q24 (target_q24 - current_q24) then current_q24 + step_q24 else target_q24)
    else if ltb target_q24 current_q24
    then (if ltb step_q24 (current_q24 - target_q24) then current_q24 - step_q24 else target_q24)
    else current_q24
