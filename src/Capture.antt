-- ===== src/Capture.antt =====
-- src/capture_math.h: the mean of the last samples of a ring, and their envelope for a display.
pub mod Mean
pub mod Envelope
use teg.Prelude.{
  ℕ, zero, suc, ◌+◌, ◌-◌, ◌*◌, ◌/◌, ◌%◌, ◌||◌, Option, none, some, List, [], ◌∷◌, ltb, leb, ◌==◌,
  if◌then◌else◌, get_or,
}
use teg.Prelude.Words.{u32, add32, sub32}

-- The loop: `n` samples, back from `idx` (exclusive). The sum of 2^32 16-bit samples fits 64 bits.
unfoldable pub sum_back : List ℕ → ℕ → ℕ → ℕ → ℕ → ℕ
sum_back ring ring_size zero idx sum = sum
sum_back ring ring_size (suc n) idx sum =
    let before = (if idx == 0 then ring_size else idx) - 1 in
    sum_back ring ring_size n before (sum + get_or ring before 0)

unfoldable pub ring_mean : List ℕ → ℕ → ℕ → ℕ → ℕ
ring_mean ring ring_size head n =
    let taken = if ltb ring_size n then ring_size else n in
    if n == 0 || ring_size == 0 then 0 else u32 (sum_back ring ring_size taken head 0 / taken)

-- The inner loop: the least and the greatest of `n` samples from the i-th on.
unfoldable pub envelope : List ℕ → ℕ → ℕ → ℕ → ℕ → ℕ → ℕ → ℕ × ℕ
envelope ring ring_size start zero i mn mx = (mn, mx)
envelope ring ring_size start (suc n) i mn mx =
    let v = get_or ring (add32 start i % ring_size) 0 in
    envelope ring ring_size start n (i + 1) (if ltb v mn then v else mn)
      (if ltb mx v then v else mx)

abbrev pub bin_from : ℕ → ℕ → ℕ → ℕ
bin_from count bins b = u32 (b * count / bins)

abbrev pub bin_to : ℕ → ℕ → ℕ → ℕ
bin_to count bins b =
    let from = bin_from count bins b in
    let to = u32 ((b + 1) * count / bins) in if leb to from then u32 (from + 1) else to

abbrev pub bin : List ℕ → ℕ → ℕ → ℕ → ℕ → ℕ → ℕ × ℕ
bin ring ring_size start count bins b =
    let from = bin_from count bins b in
    envelope ring ring_size start (bin_to count bins b - from) from 0xFFFF 0

-- The outer loop, at the b-th of the bins.
unfoldable pub bins_from : List ℕ → ℕ → ℕ → ℕ → ℕ → ℕ → ℕ → List (ℕ × ℕ)
bins_from ring ring_size start count bins zero b = []
bins_from ring ring_size start count bins (suc n) b =
    bin ring ring_size start count bins b ∷ bins_from ring ring_size start count bins n (b + 1)

-- The pairs that are written, or `none` where nothing is.
-- Where the oldest of `count` samples up to `head` stands.
abbrev pub start_of : ℕ → ℕ → ℕ → ℕ
start_of ring_size head count = sub32 (add32 head ring_size) (count % ring_size) % ring_size

unfoldable pub ring_decimate : List ℕ → ℕ → ℕ → ℕ → ℕ → Option (List (ℕ × ℕ))
ring_decimate ring ring_size head count bins =
    let taken = if ltb ring_size count then ring_size else count in
    let start = start_of ring_size head taken in
    if bins == 0 || count == 0 || ring_size == 0
    then none
    else some (bins_from ring ring_size start taken bins bins 0)
