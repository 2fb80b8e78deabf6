-- ===== src/Capture/Mean.antt =====
-- src/capture_math.h, `ringMean`: the mean of the last samples.
use teg.Prelude.{
  ℕ, zero, suc, ◌+◌, ◌-◌, ◌*◌, ◌/◌, ◌≤◌, ◌<◌, List, ◌≢◌, ltb, ◌==◌, if◌then◌else◌, length, get_or,
  All, All-at, arith,
}
use native.Mathlib.Nat.{suc-mul, mul_comm, le-div_iff_mul-le, div-le_of_le-mul}
use teg.Capture.{sum_back, ring_mean}

abbrev pub Within : ℕ → ℕ → ℕ → Type 0
Within low high v = (low ≤ v) × (v ≤ high)

sum_back-Within :
    (ring : List ℕ) (low high n idx sum : ℕ)
    → All (Within low high) ring
    → idx ≤ length ring
    → 0 < length ring
    → (sum + n * low ≤ sum_back ring (length ring) n idx sum)
      × (sum_back ring (length ring) n idx sum ≤ sum + n * high)
unfolding sum_back
sum_back-Within ring low high zero idx sum within i some_room = (omega arith, omega arith)
sum_back-Within ring low high (suc n) idx sum within i some_room =
    let before = (if idx == 0 then length ring else idx) - 1 in
    let inside : before < length ring = ground arith in
    let (low_v, high_v) = All-at (Within low high) ring before 0 inside within in
    let rest =
      sum_back-Within ring low high n before (sum + get_or ring before 0) within (omega arith)
        some_room in
    (omega (arith, rest.0, low_v, suc-mul n low), omega (arith, rest.1, high_v, suc-mul n high))

-- The mean of 16-bit samples between two bounds is between them too, for every head up to the size
-- of a ring that is not empty and every number of
-- samples asked for but 0, more than the ring has included.
pub ring_mean-Within :
    (ring : List ℕ) (low high head n : ℕ)
    → All (Within low high) ring
    → head ≤ length ring
    → 0 < length ring
    → n ≢ 0
    → high < 65536
    → Within low high (ring_mean ring (length ring) head n)
unfolding ring_mean
ring_mean-Within ring low high head n within i some_room nz small =
    let taken = if ltb (length ring) n then length ring else n in
    let pos : 0 < taken = ground arith in
    let (below, above) = sum_back-Within ring low high taken head 0 within i some_room in
    let mean = sum_back ring (length ring) taken head 0 / taken in
    let least : low ≤ mean = (le-div_iff_mul-le pos).1 (omega (arith, below, mul_comm low taken)) in
    let most : mean ≤ high = div-le_of_le-mul taken (omega (arith, above)) in
    ground (arith, least, most)
