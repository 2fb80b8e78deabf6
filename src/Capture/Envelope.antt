-- ===== src/Capture/Envelope.antt =====
-- src/capture_math.h, `ringDecimate`: the envelope of the last samples in bins.
use teg.Prelude.{
  ℕ, ap, ◌∙◌, zero, suc, min, ◌+◌, ◌-◌, ◌^◌, ◌*◌, ◌/◌, ◌%◌, ◌≤◌, ◌<◌, some, List, ◌≡◌, ◌⊎◌, inl,
  inr, refl, ltb, if◌then◌else◌, length, get_or, arith,
}
use teg.Prelude.Words.{add32, sub32}
use native.Mathlib.Nat.{
  mod-eq_of_lt, mod-eq-sub-mod, zero-div, mul-le-mul_right, div-le_of_le-mul, mul-div_cancel_left,
}
use teg.Capture.{envelope, bin, bin_from, bin_to, bins_from, ring_decimate, start_of}

module _ (ring : List ℕ) (ring_size start : ℕ) where
  abbrev pub sample : ℕ → ℕ
  sample i = get_or ring (add32 start i % ring_size) 0

  envelope-wider :
      (n i mn mx : ℕ)
      → ((envelope ring ring_size start n i mn mx).0 ≤ mn)
        × (mx ≤ (envelope ring ring_size start n i mn mx).1)
  unfolding envelope
  envelope-wider zero i mn mx = (omega arith, omega arith)
  envelope-wider (suc n) i mn mx =
      let v = sample i in
      let (low, high) =
        envelope-wider n (i + 1) (if ltb v mn then v else mn) (if ltb mx v then v else mx) in
      (ground (arith, low), ground (arith, high))

  envelope-covers :
      (n i mn mx k : ℕ)
      → i ≤ k
      → k < i + n
      → ((envelope ring ring_size start n i mn mx).0 ≤ sample k)
        × (sample k ≤ (envelope ring ring_size start n i mn mx).1)
  unfolding envelope
  envelope-covers zero i mn mx k low high = absurd (omega arith)
  envelope-covers (suc n) i mn mx k low high =
      let v = sample i in
      let mn1 = if ltb v mn then v else mn in
      let mx1 = if ltb mx v then v else mx in
      let which : (i ≡ k) ⊎ (i + 1 ≤ k) = ground arith in
      elim which [
        | inl e ↦
            let (l, g) = envelope-wider n (i + 1) mn1 mx1 in
            rw (← e) (ground (arith, l), ground (arith, g))
        | inr past ↦ envelope-covers n (i + 1) mn1 mx1 k past (omega arith)
      ]

-- The bin in which the i-th sample falls.
find_bin :
    (count bins n i : ℕ)
    → i < n * count / bins
    → (b : ℕ) × (b < n) × (b * count / bins ≤ i) × (i < (b + 1) * count / bins)
find_bin count bins zero i h = absurd (omega (arith, h, zero-div bins))
find_bin count bins (suc n) i h =
    let which : (i < n * count / bins) ⊎ (n * count / bins ≤ i) = ground arith in
    elim which [
      | inl lower ↦
          let (b, below, from, to) = find_bin count bins n i lower in (b, omega arith, from, to)
      | inr from ↦ let e : n + 1 ≡ suc n = omega arith in (n, omega arith, from, rw e h)
    ]

get_or-bins_from :
    (ring : List ℕ) (ring_size start count bins n b j : ℕ) (d : ℕ × ℕ)
    → j < n
    → get_or (bins_from ring ring_size start count bins n b) j d
      ≡ bin ring ring_size start count bins (b + j)
unfolding bins_from
get_or-bins_from ring ring_size start count bins zero b j d h = absurd (omega arith)
get_or-bins_from ring ring_size start count bins (suc n) b zero d h =
    let e : b + 0 ≡ b = omega arith in rw e refl
get_or-bins_from ring ring_size start count bins (suc n) b (suc j) d h =
    let e : b + suc j ≡ b + 1 + j = omega arith in
    rw e (get_or-bins_from ring ring_size start count bins n (b + 1) j d (omega arith))

bin_at :
    (ring : List ℕ) (ring_size start count bins n b : ℕ) (d : ℕ × ℕ)
    → b < n
    → get_or (bins_from ring ring_size start count bins n 0) b d
      ≡ bin ring ring_size start count bins b
bin_at ring ring_size start count bins n b d h =
    let e : 0 + b ≡ b = omega arith in
    rw e at (get_or-bins_from ring ring_size start count bins n 0 b d h)

-- A bin covers the samples that fall in it; the casts to 32 bits lose nothing.
bin-covers :
    (ring : List ℕ) (ring_size start count bins b i : ℕ)
    → count < 2 ^ 32
    → b < bins
    → b * count / bins ≤ i
    → i < (b + 1) * count / bins
    → ((bin ring ring_size start count bins b).0 ≤ sample ring ring_size start i)
      × (sample ring ring_size start i ≤ (bin ring ring_size start count bins b).1)
bin-covers ring ring_size start count bins b i small here from to =
    let most : (b + 1) * count / bins ≤ count =
      div-le_of_le-mul bins (mul-le-mul_right count (omega arith)) in
    envelope-covers ring ring_size start (bin_to count bins b - bin_from count bins b)
      (bin_from count bins b) 0xFFFF 0 i (omega (arith, most)) (ground (arith, most))

decimate_cases :
    (ring : List ℕ) (size head count bins : ℕ) (pairs : List (ℕ × ℕ))
    → ring_decimate ring size head count bins ≡ some pairs
    → (0 < bins)
      × (bins_from ring size (start_of size head (min count size)) (min count size) bins bins 0
          ≡ pairs)
unfolding ring_decimate
decimate_cases ring size head count bins pairs h =
    let e : (if ltb size count then size else count) ≡ min count size = ground arith in
    rw (← e) (ground arith)

-- A remainder of what is less than twice the modulus.
mod_cases : (a n : ℕ) → a < 2 * n → ((a < n) × (a % n ≡ a)) ⊎ ((n ≤ a) × (a % n ≡ a - n))
mod_cases a n h =
    let which : (a < n) ⊎ (n ≤ a) = ground arith in
    elim which [
      | inl low ↦ inl (low, mod-eq_of_lt low)
      | inr high ↦
          let less : a - n < n = omega arith in inr (high, mod-eq-sub-mod high ∙ mod-eq_of_lt less)
    ]

-- The k-th sample before the head, the last one being the 0-th.
abbrev pub ago : List ℕ → ℕ → ℕ → ℕ
ago ring head k = get_or ring ((head + length ring - 1 - k) % length ring) 0

-- The code counts from the oldest of the samples that it takes.
sample-ago :
    (ring : List ℕ) (head taken k : ℕ)
    → length ring < 2 ^ 31
    → head < length ring
    → taken ≤ length ring
    → k < taken
    → sample ring (length ring) (start_of (length ring) head taken) (taken - 1 - k)
      ≡ ago ring head k
sample-ago ring head taken k small inside most below =
    let n = length ring in
    let start = start_of n head taken in
    let turn = sub32 (add32 head n) (taken % n) in
    let cut = mod_cases taken n (omega arith) in
    let shift : turn < 2 * n = ground (arith, cut) in
    let begun = mod_cases turn n shift in
    let placed = mod_cases (add32 start (taken - 1 - k)) n (ground (arith, begun)) in
    let counted = mod_cases (head + n - 1 - k) n (omega arith) in
    ap (λ i. get_or ring i 0) (ground (arith, cut, begun, placed, counted))

-- Where pairs are written, for a ring of less than 2^31 samples with its head inside and less than
-- 2^32 bins, no sample is lost: each of the last samples before the head, `count` of them or as many
-- as the ring has, lies between the two values of some bin.
pub decimate-covers :
    (ring : List ℕ) (head count bins : ℕ) (pairs : List (ℕ × ℕ))
    → length ring < 2 ^ 31
    → head < length ring
    → bins < 2 ^ 32
    → ring_decimate ring (length ring) head count bins ≡ some pairs
    → (k : ℕ) → k < min count (length ring)
    → (b : ℕ) × (b < bins)
      × ((get_or pairs b (0, 0)).0 ≤ ago ring head k)
      × (ago ring head k ≤ (get_or pairs b (0, 0)).1)
decimate-covers ring head count bins pairs small inside few h k below =
    let size = length ring in
    let taken = min count size in
    let start = start_of size head taken in
    let i = taken - 1 - k in
    let (pos, e) = decimate_cases ring size head count bins pairs h in
    let within : i < taken = omega (arith, below) in
    let all : i < bins * taken / bins = rw (mul-div_cancel_left taken pos) within in
    let (b, here, from, to) = find_bin taken bins bins i all in
    let covers = bin-covers ring size start taken bins b i (omega arith) here from to in
    let is_bin = bin_at ring size start taken bins bins b (0, 0) here in
    let is_ago = sample-ago ring head taken k small inside (omega arith) below in
    let (least, most) = rw is_ago at covers in
    (b, here, rw (← e, is_bin) least, rw (← e, is_bin) most)
