-- ===== src/Modulation/Pipeline/Saturate.antt =====
-- From an integer to a duty: the rails, and what lies between them.
use teg.Prelude.{◌≤◌, ◌≡◌, arith}
use teg.Prelude.Int.{ℤ, pos, negsuc, ◌+ℤ◌, ◌≤ℤ◌}
use teg.Modulation.Pipeline.{saturate, to_duty}

pub record IsWithin (v : ℤ) : Type 0 where
  pub above : negsuc 32766 ≤ℤ v
  pub under : v ≤ℤ pos 32767

pub to_duty-bounds : (v : ℤ) → (1 ≤ to_duty v) × (to_duty v ≤ 65535)
unfolding to_duty saturate ◌+ℤ◌
to_duty-bounds v = ground arith

pub to_duty-within : (v : ℤ) → IsWithin v → pos (to_duty v) ≡ pos 32768 +ℤ v
unfolding to_duty saturate ◌+ℤ◌
to_duty-within v h = ground (arith, h.above, h.under)

pub to_duty-high : (v : ℤ) → pos 32767 ≤ℤ v → to_duty v ≡ 65535
unfolding to_duty saturate ◌+ℤ◌
to_duty-high v h = ground arith

pub to_duty-low : (v : ℤ) → v ≤ℤ negsuc 32766 → to_duty v ≡ 1
unfolding to_duty saturate ◌+ℤ◌
to_duty-low v h = ground arith

pub to_duty_mono : (v w : ℤ) → v ≤ℤ w → to_duty v ≤ to_duty w
unfolding to_duty saturate ◌+ℤ◌
to_duty_mono v w h = ground arith
