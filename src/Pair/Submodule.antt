-- ===== src/Pair/Submodule.antt =====
-- src/pwm_pair.h: the submodules by number.
use teg.Prelude.{ℕ}

abbrev pub sm21 : ℕ
sm21 = 2

abbrev pub sm40 : ℕ
sm40 = 6

abbrev pub sm41 : ℕ
sm41 = 7

abbrev pub sm42 : ℕ
sm42 = 8

abbrev pub sm13 : ℕ
sm13 = 0

abbrev pub sm20 : ℕ
sm20 = 1

abbrev pub sm22 : ℕ
sm22 = 3

abbrev pub sm23 : ℕ
sm23 = 4

abbrev pub sm31 : ℕ
sm31 = 5
