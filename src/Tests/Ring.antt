-- ===== src/Tests/Ring.antt =====
-- The stream ring and the captured samples at concrete inputs.
use teg.Prelude.{
  ℕ, if◌then◌else◌, ◌==◌, ◌≡◌, ◌≤◌, ◌<◌, refl, inl, inr, true, false, some, List, [], ◌∷◌, length,
  get_or, arith, ◌*◌,
}
use teg.Stream.{StreamRing, Buffers, published, next, reset}
use teg.Stream.Owner.{IsValid}
use teg.Stream.Steps.{Reach-IsValid, start, after, play, next-filling}
use teg.Scope.{fresh, scope_arm}
use teg.Scope.Run.{run, arm-freeze}
use teg.Capture.{envelope, bins_from, ring_decimate}
use teg.Capture.Envelope.{ago, decimate-covers}

abbrev zeros : Buffers
zeros = λ k i. 0

abbrev busy : StreamRing
busy = record {
  published0 = 0x20000;
  published1 = 4;
  active = 1;
  index = 2;
  last_sample = 9;
  underruns = 0;
}

busy-IsValid : IsValid busy
busy-IsValid = record {
  state0 = inr (inr refl);
  state1 = inl (omega arith);
  active_bit = omega arith;
  within = omega arith;
}

-- Other contents of the buffer that is being filled.
abbrev sevens : Buffers
sevens = λ k i. if k == 0 then 7 else 0

next-filling_example :
    (published (next busy zeros).0 0 ≡ 0x20000) × (next busy zeros ≡ next busy sevens)
next-filling_example = next-filling busy 0 zeros sevens busy-IsValid (omega arith) refl (λ i. refl)

Reach-IsValid_example : IsValid (next reset zeros).0
Reach-IsValid_example = Reach-IsValid (after start (play reset zeros))

arm-freeze_example :
    (run (scope_arm fresh 100 false 2) (150 ∷ 20 ∷ 30 ∷ 120 ∷ 130 ∷ 90 ∷ 80 ∷ [])).0
    ≡ false ∷ false ∷ false ∷ false ∷ false ∷ true ∷ false ∷ []
arm-freeze_example =
    arm-freeze fresh 100 false 2 (150 ∷ []) 20 (30 ∷ []) 120 (130 ∷ 90 ∷ []) (80 ∷ [])
      (omega arith, tt) (omega arith, (omega arith, tt)) (omega arith) refl (omega arith)

abbrev ring : List ℕ
ring = 5 ∷ 9 ∷ 2 ∷ 7 ∷ []

abbrev pairs : List (ℕ × ℕ)
pairs = (5, 9) ∷ (2, 7) ∷ []

decimated : ring_decimate ring (length ring) 0 4 2 ≡ some pairs
unfolding ring_decimate bins_from envelope
decimated = refl

decimate-covers_example :
    (b : ℕ) × (b < 2)
    × ((get_or pairs b (0, 0)).0 ≤ ago ring 0 2)
    × (ago ring 0 2 ≤ (get_or pairs b (0, 0)).1)
decimate-covers_example =
    decimate-covers ring 0 4 2 pairs (omega arith) (omega arith) (omega arith) decimated 2
      (omega arith)

-- A rising line.
abbrev line : ℕ → ℕ
line i = i * 10
