-- ===== src/Acmp/Dac.antt =====
-- src/acmp_math.h: the threshold that the 6-bit converter can give, and its code.
use teg.Prelude.{ℕ, ◌+◌, ◌≤◌, ◌<◌, ◌≡◌, arith}
use teg.Acmp.{acmp_threshold_to_dac_code, acmp_dac_code_to_mv}

-- With the 3300 mV reference, a threshold from 26 mV to 3300 mV gets a code below 64 whose voltage
-- is at most 26 mV, half a step, from it.
pub dac-nearest :
    (threshold : ℕ)
    → 26 ≤ threshold
    → threshold ≤ 3300
    → let code = acmp_threshold_to_dac_code threshold 3300 in
      (code < 64)
      × (threshold ≤ acmp_dac_code_to_mv code 3300 + 26)
      × (acmp_dac_code_to_mv code 3300 ≤ threshold + 26)
unfolding acmp_threshold_to_dac_code acmp_dac_code_to_mv
dac-nearest threshold low high = ground arith

-- With the 3300 mV reference, every code below 64 is the code of its own voltage.
pub dac-code :
    (code : ℕ) → code < 64 → acmp_threshold_to_dac_code (acmp_dac_code_to_mv code 3300) 3300 ≡ code
unfolding acmp_threshold_to_dac_code acmp_dac_code_to_mv
dac-code code h = ground arith
