-- ===== src/Mppt.antt =====
-- src/mppt_math.h: the power point tracker. Power is a signed number; the difference of two
-- readings is exact here, and wraps in the source only where it does not fit 32 bits.
pub mod Bounds
use teg.Prelude.{
  ℕ, suc, ◌+◌, ◌-◌, ◌*◌, ◌/◌, ◌^◌, Bool, true, false, not, ◌||◌, ltb, leb, if◌then◌else◌,
}
use teg.Prelude.Words.{u8, u16}
use teg.Prelude.Int.{ℤ, pos, negsuc}

pub record MpptParams : Type 0 where
  pub min_index_milli : ℕ
  pub max_index_milli : ℕ
  pub step_max_milli : ℕ
  pub step_min_milli : ℕ
  pub deadband_mw : ℕ
  pub restart_delta_mw : ℕ

-- `rising` is whether `dir` is 1.
pub record MpptState : Type 0 where
  pub prev_power_mw : ℤ
  pub rising : Bool
  pub step_milli : ℕ
  pub index_milli : ℕ
  pub grow_cnt : ℕ
  pub flat_cnt : ℕ
  pub primed : Bool

abbrev pub mppt_flat_cap : ℕ
mppt_flat_cap = 4

unfoldable pub mppt_init : ℕ → MpptParams → MpptState
mppt_init start_index_milli p =
    let low =
      if ltb start_index_milli p.min_index_milli then p.min_index_milli else start_index_milli in
    record {
      prev_power_mw = pos 0;
      rising = true;
      step_milli = p.step_max_milli;
      index_milli = if ltb p.max_index_milli low then p.max_index_milli else low;
      grow_cnt = 0;
      flat_cnt = 0;
      primed = false;
    }

-- Whether `x - y` is not negative.
unfoldable pub is_gain : ℤ → ℤ → Bool
is_gain (pos a) (pos b) = leb b a
is_gain (pos a) (negsuc b) = true
is_gain (negsuc a) (pos b) = false
is_gain (negsuc a) (negsuc b) = leb a b

-- The magnitude of `x - y`.
unfoldable pub magnitude : ℤ → ℤ → ℕ
magnitude (pos a) (pos b) = (a - b) + (b - a)
magnitude (pos a) (negsuc b) = a + suc b
magnitude (negsuc a) (pos b) = suc a + b
magnitude (negsuc a) (negsuc b) = (a - b) + (b - a)

abbrev pub restart : MpptState → MpptParams → Bool → MpptState
restart s p gain = record s {
  step_milli = p.step_max_milli;
  grow_cnt = 0;
  flat_cnt = 0;
  rising = if not gain then not s.rising else s.rising;
}

abbrev pub flat : MpptState → MpptState
flat s =
    let turned = leb mppt_flat_cap (u8 (s.flat_cnt + 1)) in
    record s {
      grow_cnt = 0;
      flat_cnt = if turned then 0 else u8 (s.flat_cnt + 1);
      rising = if turned then not s.rising else s.rising;
    }

abbrev pub improved : MpptState → MpptParams → MpptState
improved s p =
    let grown = leb 2 (u8 (s.grow_cnt + 1)) in
    let doubled = 2 * s.step_milli in
    record s {
      flat_cnt = 0;
      grow_cnt = if grown then 0 else u8 (s.grow_cnt + 1);
      step_milli =
          if grown
          then (if ltb p.step_max_milli doubled then p.step_max_milli else u16 doubled)
          else s.step_milli;
    }

abbrev pub worsened : MpptState → MpptParams → MpptState
worsened s p =
    let halved = s.step_milli / 2 in
    record s {
      rising = not s.rising;
      step_milli = if ltb halved p.step_min_milli then p.step_min_milli else halved;
      grow_cnt = 0;
      flat_cnt = 0;
    }

-- The cast of `restartDeltaMw` to `int32_t` is negative from 2 ^ 31 on.
unfoldable pub judge : MpptState → MpptParams → ℤ → MpptState
judge s p power_mw =
    let gain = is_gain power_mw s.prev_power_mw in
    let mag = magnitude power_mw s.prev_power_mw in
    let seen = record s { prev_power_mw = power_mw } in
    if not s.primed
    then record seen { primed = true }
    else if ltb p.restart_delta_mw mag || leb (2 ^ 31) p.restart_delta_mw
    then restart seen p gain
    else if leb mag p.deadband_mw
    then flat seen
    else if gain
    then improved seen p
    else worsened seen p

-- The move; a negative `next` is at the floor, as 0 is.
unfoldable pub move : MpptState → MpptParams → MpptState
move s p =
    let next = if s.rising then s.index_milli + s.step_milli else s.index_milli - s.step_milli in
    let floored = leb next p.min_index_milli in
    let low = if floored then p.min_index_milli else next in
    let topped = leb p.max_index_milli low in
    record s {
      index_milli = u16 (if topped then p.max_index_milli else low);
      rising = if topped then false else if floored then true else s.rising;
    }

unfoldable pub mppt_step : MpptState → MpptParams → ℤ → MpptState
mppt_step s p power_mw = move (judge s p power_mw) p
