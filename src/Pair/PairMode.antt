-- ===== src/Pair/PairMode.antt =====
-- src/pwm_pair.h: the pair modes, and their number.
use teg.Prelude.{ℕ}

abbrev pub independent : ℕ
independent = 0

abbrev pub half_bridge : ℕ
half_bridge = 1

abbrev pub differential : ℕ
differential = 2

abbrev pub count : ℕ
count = 3
