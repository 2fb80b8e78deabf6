-- ===== src/Gzip/Progress.antt =====
-- How much fuel a feed needs.
use teg.Prelude.{
  ℕ, ◌+◌, ◌*◌, ◌<◌, ◌≡◌, refl, ◌≢◌, Bool, true, some, List, [], ◌∷◌, arith, length, drop,
}
use teg.Gzip.{deflate, State, dict_size, Inflated, Miniz, Inflater, Round, feed}

-- Inflating goes on to the trailer.
abbrev rank : State → ℕ
rank deflate = 1
rank _ = 0

-- `budget` bounds how many pieces of output the consumer still accepts.
module _ (m : Miniz) {Ctx : Type 0} (emit : Ctx → List ℕ → Bool × Ctx) (budget : Ctx → ℕ)
    (limited : (c : Ctx) (output : List ℕ)
      → (emit c output).0 ≡ true
      → budget (emit c output).1 < budget c) where
  -- The bytes that are left, the pieces that the consumer still accepts, and the state.
  unfoldable pub work : Inflater m emit → List ℕ → Ctx → ℕ
  work g input c = 2 * length input + 2 * budget c + rank g.state

  -- Every round that is followed by another makes the work less.
  abbrev Less : Inflater m emit → List ℕ → Ctx → Round m emit → Type 0
  Less g input c r = r.0 ≡ true → r.2 ≢ [] → work r.1 r.2 r.3 < work g input c

  length_positive : (xs : List ℕ) → xs ≢ [] → 0 < length xs
  length_positive [] h = absurd (h refl)
  length_positive (x ∷ xs) h = omega arith

  module _ (g next : Inflater m emit) (input : List ℕ) (room : g.dict_offset < dict_size)
      (st : g.state ≡ deflate) where
    abbrev r : Inflated m.Tinfl
    r = m.tinfl_decompress g.inflater input g.dict g.dict_offset

    abbrev remainder : List ℕ
    remainder = drop r.in_bytes input

  abbrev Ends : ℕ → Inflater m emit → List ℕ → Ctx → Type 0
  Ends fuel g input c = (r : Bool × Inflater m emit × Ctx) × (feed m emit fuel g input c ≡ some r)
