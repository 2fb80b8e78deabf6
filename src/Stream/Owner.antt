-- ===== src/Stream/Owner.antt =====
-- src/stream_ring.h: who owns a buffer, and the ring's invariant.
use teg.Prelude.{ℕ, ◌<◌, ◌≤◌, ◌≡◌, refl, ◌⊎◌, inl, inr, ◌≢◌, Bool-cases, ◌==◌, arith}
use teg.Prelude.Words.{u16, add32}
use teg.Stream.{
  StreamRing, Buffers, refill_requested, filling, reset, published, flip, compare_exchange,
  read_sample, hand_back, starve, next,
}

-- A word of `published`: a sample count, a request, or a refill in progress.
abbrev pub IsState : ℕ → Type 0
IsState v = (v < 65536) ⊎ (v ≡ refill_requested) ⊎ (v ≡ filling)

-- The buffer holds samples that the interrupt may read.
abbrev pub IsPlayable : ℕ → Type 0
IsPlayable v = (0 < v) × (v < 65536)

pub record IsValid (r : StreamRing) : Type 0 where
  pub state0 : IsState r.published0
  pub state1 : IsState r.published1
  pub active_bit : r.active < 2
  pub within : r.index ≤ u16 (published r r.active)

-- A fresh ring is valid.
pub reset-IsValid : IsValid reset
unfolding reset
reset-IsValid = ground arith

pub hand_back-IsValid : (r : StreamRing) → IsValid r → IsValid (hand_back r)
unfolding hand_back
hand_back-IsValid r v = ground arith

starve-IsValid :
    (r : StreamRing) (b : Buffers)
    → IsValid r
    → u16 (published r r.active) ≡ 0
    → IsValid (starve r b).0
unfolding starve read_sample compare_exchange
starve-IsValid r b v h = ground arith

read_sample-IsValid :
    (r : StreamRing) (b : Buffers)
    → IsValid r
    → r.index < u16 (published r r.active)
    → IsValid (read_sample r b).0
unfolding read_sample
read_sample-IsValid r b v h = ground arith

-- After `hand_back` the index is in range of a buffer that has samples.
hand_back-index :
    (r : StreamRing)
    → IsValid r
    → u16 (published (hand_back r) (hand_back r).active) ≢ 0
    → (hand_back r).index < u16 (published (hand_back r) (hand_back r).active)
unfolding hand_back
hand_back-index r v h = ground arith

-- The interrupt's call keeps the invariant.
pub next-IsValid : (r : StreamRing) (b : Buffers) → IsValid r → IsValid (next r b).0
unfolding next
next-IsValid r b v =
    let h = hand_back r in
    elim (Bool-cases (u16 (published h h.active) == 0)) [
      | inl empty ↦ rw empty (starve-IsValid h b (hand_back-IsValid r v) (ground arith))
      | inr ready ↦
          rw ready
            (read_sample-IsValid h b (hand_back-IsValid r v) (hand_back-index r v (ground arith)))
    ]

-- What a call of `next` answers: a sample of a buffer that held one at that index before the call, or
-- the last sample once more, as an underrun that is counted.
abbrev pub Answers : StreamRing → Buffers → StreamRing × ℕ → Type 0
Answers r b (r', v) =
    ((k : ℕ) × (i : ℕ) × (k < 2)
      × (i < published r k)
      × IsPlayable (published r k)
      × (v ≡ b k i)
      × (r'.last_sample ≡ v))
    ⊎ ((v ≡ r.last_sample) × (r'.last_sample ≡ v) × (r'.underruns ≡ add32 r.underruns 1))

read_answer :
    (r h : StreamRing) (b : Buffers)
    → h.active < 2
    → h.index < published r h.active
    → published r h.active < 65536
    → Answers r b (read_sample h b)
unfolding read_sample
read_answer r h b ha hi hp = inl (h.active, h.index, ha, hi, (omega arith, hp), refl, refl)

hand_back-published :
    (r : StreamRing)
    → IsValid r
    → u16 (published (hand_back r) (hand_back r).active) ≢ 0
    → (published r (hand_back r).active ≡ u16 (published (hand_back r) (hand_back r).active))
unfolding hand_back
hand_back-published r v h = ground arith

hand_back-last :
    (r : StreamRing)
    → ((hand_back r).last_sample ≡ r.last_sample) × ((hand_back r).underruns ≡ r.underruns)
unfolding hand_back
hand_back-last r = ground arith

-- The other buffer, when the active one has nothing.
hand_back-other :
    (r : StreamRing)
    → IsValid r
    → u16 (published (hand_back r) (hand_back r).active) ≡ 0
    → u16 (published (hand_back r) (flip (hand_back r).active)) ≢ 0
    → published r (flip (hand_back r).active)
      ≡ u16 (published (hand_back r) (flip (hand_back r).active))
unfolding hand_back
hand_back-other r v e h = ground arith

starve-Answers :
    (r h : StreamRing) (b : Buffers)
    → h.active < 2
    → (u16 (published h (flip h.active)) ≢ 0
        → published r (flip h.active) ≡ u16 (published h (flip h.active)))
    → h.last_sample ≡ r.last_sample
    → h.underruns ≡ r.underruns
    → Answers r b (starve h b)
unfolding starve read_sample compare_exchange
starve-Answers r h b bit other last under =
    elim (Bool-cases (u16 (published h (flip h.active)) == 0)) [
      | inl empty ↦ inr (ground arith, ground arith, ground arith)
      | inr filled ↦
          let e = other (ground arith) in
          inl (
            flip h.active,
            0,
            ground arith,
            ground arith,
            (ground arith, ground arith),
            ground arith,
            ground arith,
          )
    ]

-- Every call of `next` on a valid ring either returns a sample of a buffer that is published, at an
-- index below its count, or returns the last sample again and counts an underrun.
pub next-Answers : (r : StreamRing) (b : Buffers) → IsValid r → Answers r b (next r b)
unfolding next
next-Answers r b v =
    let h = hand_back r in
    let hv : IsValid h = hand_back-IsValid r v in
    elim (Bool-cases (u16 (published h h.active) == 0)) [
      | inl empty ↦ rw empty (
          starve-Answers r h b hv.active_bit (hand_back-other r v (ground arith))
            (hand_back-last r).0 (hand_back-last r).1)
      | inr ready ↦
          let some_samples : u16 (published h h.active) ≢ 0 = ground arith in
          let e = hand_back-published r v some_samples in
          let i = hand_back-index r v some_samples in
          rw ready (read_answer r h b hv.active_bit (omega arith) (omega arith))
    ]
