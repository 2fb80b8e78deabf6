-- ===== src/Mppt/Bounds.antt =====
-- src/mppt_math.h: where the tracker may go.
use teg.Prelude.{ℕ, ◌<◌, ◌≤◌, Bool, true, false, List, [], ◌∷◌, if◌then◌else◌, arith}
use teg.Prelude.Int.{ℤ}
use teg.Mppt.{
  MpptParams, MpptState, mppt_init, restart, flat, improved, worsened, judge, move, mppt_step,
  is_gain,
}

-- Parameters that configuration validation lets through.
pub record IsUsable (p : MpptParams) : Type 0 where
  pub ordered : p.min_index_milli ≤ p.max_index_milli
  pub wide : p.max_index_milli < 65536
  pub step_wide : p.step_max_milli < 65536
  pub steps : p.step_min_milli ≤ p.step_max_milli

pub record IsValid (p : MpptParams) (s : MpptState) : Type 0 where
  pub low : p.min_index_milli ≤ s.index_milli
  pub high : s.index_milli ≤ p.max_index_milli
  pub step : s.step_milli ≤ p.step_max_milli
  pub grows : s.grow_cnt < 2
  pub flats : s.flat_cnt < 4

if-IsValid :
    (p : MpptParams) (b : Bool) (s t : MpptState)
    → IsValid p s
    → IsValid p t
    → IsValid p (if b then s else t)
if-IsValid p true s t hs ht = hs
if-IsValid p false s t hs ht = ht

module _ (p : MpptParams) (s : MpptState) (u : IsUsable p) (v : IsValid p s) where
  restart-IsValid : (gain : Bool) → IsValid p (restart s p gain)
  restart-IsValid gain = record {
    low = v.low;
    high = v.high;
    step = omega arith;
    grows = omega arith;
    flats = omega arith;
  }

  flat-IsValid : IsValid p (flat s)
  flat-IsValid = record {
    low = v.low;
    high = v.high;
    step = v.step;
    grows = omega arith;
    flats = ground arith;
  }

  improved-IsValid : IsValid p (improved s p)
  improved-IsValid = record {
    low = v.low;
    high = v.high;
    step = ground arith;
    grows = ground arith;
    flats = omega arith;
  }

  worsened-IsValid : IsValid p (worsened s p)
  worsened-IsValid = record {
    low = v.low;
    high = v.high;
    step = ground arith;
    grows = omega arith;
    flats = omega arith;
  }

seen-IsValid :
    (p : MpptParams) (s : MpptState) (power : ℤ) (primed : Bool)
    → IsValid p s
    → IsValid p (record s { prev_power_mw = power; primed = primed })
seen-IsValid p s power primed v = record {
  low = v.low;
  high = v.high;
  step = v.step;
  grows = v.grows;
  flats = v.flats;
}

judge-IsValid :
    (p : MpptParams) (s : MpptState) (power : ℤ)
    → IsUsable p
    → IsValid p s
    → IsValid p (judge s p power)
unfolding judge
judge-IsValid p s power u v =
    let seen : MpptState = record s { prev_power_mw = power } in
    let w : IsValid p seen = seen-IsValid p s power s.primed v in
    let gain = is_gain power s.prev_power_mw in
    if-IsValid p _ _ _ (seen-IsValid p s power true v) (
      if-IsValid p _ _ _ (restart-IsValid p seen u w gain) (
        if-IsValid p _ _ _ (flat-IsValid p seen u w)
          (if-IsValid p _ _ _ (improved-IsValid p seen u w) (worsened-IsValid p seen u w))))

move-IsValid : (p : MpptParams) (s : MpptState) → IsUsable p → IsValid p s → IsValid p (move s p)
unfolding move
move-IsValid p s u v = record {
  low = ground arith;
  high = ground arith;
  step = v.step;
  grows = v.grows;
  flats = v.flats;
}

-- The tracker over a list of readings.
pub track : MpptParams → MpptState → List ℤ → MpptState
track p s [] = s
track p s (power ∷ readings) = track p (mppt_step s p power) readings

init-IsValid : (p : MpptParams) (start : ℕ) → IsUsable p → IsValid p (mppt_init start p)
unfolding mppt_init
init-IsValid p start u = record {
  low = ground arith;
  high = ground arith;
  step = omega arith;
  grows = omega arith;
  flats = omega arith;
}

step-IsValid :
    (p : MpptParams) (s : MpptState) (power : ℤ)
    → IsUsable p
    → IsValid p s
    → IsValid p (mppt_step s p power)
unfolding mppt_step
step-IsValid p s power u v = move-IsValid p (judge s p power) u (judge-IsValid p s power u v)

track-IsValid :
    (p : MpptParams) (s : MpptState) (readings : List ℤ)
    → IsUsable p
    → IsValid p s
    → IsValid p (track p s readings)
unfolding track
track-IsValid p s [] u v = v
track-IsValid p s (power ∷ readings) u v =
    track-IsValid p (mppt_step s p power) readings u (step-IsValid p s power u v)

-- For parameters whose limits are ordered and fit 16 bits: from any start and after any readings,
-- the modulation index is within its limits, the step does
-- not exceed its maximum, and the counters stay below their caps.
pub run-IsValid :
    (p : MpptParams) (start : ℕ) (readings : List ℤ)
    → IsUsable p
    → IsValid p (track p (mppt_init start p) readings)
run-IsValid p start readings u =
    track-IsValid p (mppt_init start p) readings u (init-IsValid p start u)
