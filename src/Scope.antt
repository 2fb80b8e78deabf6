-- ===== src/Scope.antt =====
-- src/scope_math.h: the trigger of the single-shot scope, one sample to a step.
pub mod Run
use teg.Prelude.{ℕ, ◌+◌, ◌-◌, ◌*◌, ◌/◌, Bool, true, false, not, ◌||◌, ltb, leb, ◌==◌, if◌then◌else◌}
use teg.Prelude.Words.{u16, u32, sub32}

pub data ScopeState : Type 0 where
  idle armed triggered complete : ScopeState

pub record ScopeMachine : Type 0 where
  pub state : ScopeState
  pub level : ℕ
  pub falling_edge : Bool
  pub primed : Bool
  pub post_total : ℕ
  pub post_remaining : ℕ

abbrev pub fresh : ScopeMachine
fresh = record {
  state = idle;
  level = 2048;
  falling_edge = false;
  primed = false;
  post_total = 0;
  post_remaining = 0;
}

unfoldable pub scope_arm : ScopeMachine → ℕ → Bool → ℕ → ScopeMachine
scope_arm m level_counts falling post_samples = record {
  state = armed;
  level = level_counts;
  falling_edge = falling;
  primed = false;
  post_total = post_samples;
  post_remaining = 0;
}

unfoldable pub scope_disarm : ScopeMachine → ScopeMachine
scope_disarm m = record m { state = idle; primed = false }

abbrev pub pre_side : ScopeMachine → ℕ → Bool
pre_side m sample = let below = ltb sample m.level in if m.falling_edge then not below else below

unfoldable pub step_armed : ScopeMachine → ℕ → Bool × ScopeMachine
step_armed m sample =
    if pre_side m sample
    then (false, record m { primed = true })
    else if m.primed
    then (if m.post_total == 0
        then (true, record m { state = complete; post_remaining = m.post_total })
        else (false, record m { state = triggered; post_remaining = m.post_total }))
    else (false, m)

unfoldable pub step_triggered : ScopeMachine → Bool × ScopeMachine
step_triggered m =
    let left = sub32 m.post_remaining 1 in
    if left == 0
    then (true, record m { state = complete; post_remaining = left })
    else (false, record m { post_remaining = left })

unfoldable pub step_in : ScopeState → ScopeMachine → ℕ → Bool × ScopeMachine
step_in armed m sample = step_armed m sample
step_in triggered m sample = step_triggered m
step_in idle m sample = (false, m)
step_in complete m sample = (false, m)

unfoldable pub scope_step : ScopeMachine → ℕ → Bool × ScopeMachine
scope_step m sample = step_in m.state m sample

unfoldable pub scope_trig_offset : Bool → ℕ → ℕ → ℕ
scope_trig_offset was_triggered post_samples count =
    if not was_triggered || count == 0 || leb count post_samples
    then 0xFFFFFFFF
    else count - 1 - post_samples

unfoldable pub scope_level_counts : ℕ → ℕ
scope_level_counts millivolts =
    let mv = if ltb 3300 millivolts then 3300 else millivolts in u16 (u32 (mv * 4095 + 1650) / 3300)
