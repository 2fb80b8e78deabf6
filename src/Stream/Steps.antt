-- ===== src/Stream/Steps.antt =====
-- src/stream_ring.h: interleavings of the interrupt and the loop.
use teg.Prelude.{ℕ, ◌<◌, ◌≡◌, ◌⊎◌, inl, inr, ◌≢◌, Bool-cases, ◌==◌, arith}
use teg.Prelude.Words.{u16, IsU16}
use teg.Stream.{
  StreamRing, Buffers, filling, reset, published, flip, compare_exchange, read_sample, hand_back,
  starve, next, begin_refill, mark_filled,
}
use teg.Stream.Owner.{IsValid, reset-IsValid, next-IsValid, hand_back-IsValid}

begin_refill-IsValid : (r : StreamRing) (k : ℕ) → k < 2 → IsValid r → IsValid (begin_refill r k).1
unfolding begin_refill compare_exchange
begin_refill-IsValid r k h v = ground arith

-- A refill may be published by the loop that claimed it, or into a buffer that was never used.
abbrev pub MayFill : StreamRing → ℕ → Type 0
MayFill r k = (published r k ≡ filling) ⊎ (published r k ≡ 0)

mark_filled-IsValid :
    (r : StreamRing) (k n : ℕ)
    → k < 2
    → IsU16 n
    → MayFill r k
    → IsValid r
    → IsValid (mark_filled r k n)
unfolding mark_filled
mark_filled-IsValid r k n h hn may v = ground arith

-- One step of the system: the interrupt plays, or the loop claims or publishes a buffer.
pub data Step : StreamRing → StreamRing → Type 0 where
  play : (r : StreamRing) (b : Buffers) → Step r (next r b).0
  claim : (r : StreamRing) (k : ℕ) → k < 2 → Step r (begin_refill r k).1
  fill : (r : StreamRing) (k n : ℕ) → k < 2 → IsU16 n → MayFill r k → Step r (mark_filled r k n)

pub data Reach : StreamRing → Type 0 where
  start : Reach reset
  after : {r r' : StreamRing} → Reach r → Step r r' → Reach r'

step-IsValid : {r r' : StreamRing} → Step r r' → IsValid r → IsValid r'
step-IsValid (play r b) v = next-IsValid r b v
step-IsValid (claim r k h) v = begin_refill-IsValid r k h v
step-IsValid (fill r k n h hn may) v = mark_filled-IsValid r k n h hn may v

-- Whatever the interleaving of the interrupt with the loop's claims and fills, from a reset on: the
-- two words hold states, the active buffer is one of the two, and the index of the next sample does
-- not pass the active buffer's count. The loop fills what it has claimed, or what was never used.
pub Reach-IsValid : {r : StreamRing} → Reach r → IsValid r
Reach-IsValid start = reset-IsValid
Reach-IsValid (after r s) = step-IsValid s (Reach-IsValid r)

module _ (r : StreamRing) (k : ℕ) (b b' : Buffers) (h : k < 2) (busy : published r k ≡ filling)
    (bit : r.active < 2) where
  hand_back-filling : published (hand_back r) k ≡ filling
  unfolding hand_back
  hand_back-filling = ground arith

  starve-filling :
      u16 (published r r.active) ≡ 0
      → b (flip k) 0 ≡ b' (flip k) 0
      → (published (starve r b).0 k ≡ filling) × (starve r b ≡ starve r b')
  unfolding starve read_sample compare_exchange
  starve-filling empty same = ground arith

  read-filling :
      u16 (published r r.active) ≢ 0
      → b (flip k) r.index ≡ b' (flip k) r.index
      → (published (read_sample r b).0 k ≡ filling) × (read_sample r b ≡ read_sample r b')
  unfolding read_sample
  read-filling ready same = ground arith

-- While the loop fills a buffer, a call of the interrupt neither changes that buffer's word nor
-- depends on what the buffer's memory holds.
pub next-filling :
    (r : StreamRing) (k : ℕ) (b b' : Buffers)
    → IsValid r
    → k < 2
    → published r k ≡ filling
    → ((i : ℕ) → b (flip k) i ≡ b' (flip k) i)
    → (published (next r b).0 k ≡ filling) × (next r b ≡ next r b')
unfolding next
next-filling r k b b' v h busy same =
    let hb = hand_back r in
    let busy' : published hb k ≡ filling = hand_back-filling r k b b' h busy v.active_bit in
    let bit' : hb.active < 2 = (hand_back-IsValid r v).active_bit in
    elim (Bool-cases (u16 (published hb hb.active) == 0)) [
      | inl empty ↦ rw empty (starve-filling hb k b b' h busy' bit' (ground arith) (same 0))
      | inr ready ↦ rw ready (read-filling hb k b b' h busy' bit' (ground arith) (same hb.index))
    ]
