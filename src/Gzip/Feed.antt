-- ===== src/Gzip/Feed.antt =====
-- What each round of the loop keeps, a feed keeps.
use teg.Prelude.{
  ℕ, zero, suc, ◌≡◌, sym, ap, ◌∙◌, ◌⊎◌, refl, inl, inr, Bool, true, false, Option, none, some, List,
  [], ◌∷◌, if◌then◌else◌, Bool-cases,
}
use teg.Gzip.{Miniz, Inflater, Round, on, round, feed}

module _ (m : Miniz) {Ctx : Type 0} (emit : Ctx → List ℕ → Bool × Ctx)
    (P : Inflater m emit → List ℕ → Ctx → Type 0)
    (step : (g : Inflater m emit) (b : ℕ) (rest : List ℕ) (c : Ctx)
      → P g (b ∷ rest) c
      → P
          (round m emit g.state g b rest c).1
          (round m emit g.state g b rest c).2
          (round m emit g.state g b rest c).3) where
  abbrev result : Bool → Inflater m emit → Ctx → Option (Bool × Inflater m emit × Ctx)
  result more g c = some (more, g, c)

  at :
      (g : Inflater m emit) (input : List ℕ) (c : Ctx)
      → P g input c
      → (b more : Bool) (g' : Inflater m emit) (c' : Ctx) → result b g c ≡ result more g' c'
      → P g' input c'
  at g input c h b more g' c' e =
      let same_g : g ≡ g' = cc in let same_c : c ≡ c' = cc in rw (← same_g, ← same_c) h

  stopped_at :
      (g : Inflater m emit) (c : Ctx) (more : Bool) (g' : Inflater m emit) (c' : Ctx)
      → result false g c ≡ result more g' c'
      → more ≡ false
  stopped_at g c more g' c' e = cc

  -- The two ways that a feed goes on after a round.
  module _ (fuel : ℕ) (g : Inflater m emit) (b : ℕ) (rest : List ℕ) (c : Ctx) where
    abbrev r : Round m emit
    r = round m emit g.state g b rest c

    on_path :
        {o : Option (Bool × Inflater m emit × Ctx)}
        → r.0 ≡ true
        → feed m emit (suc fuel) g (b ∷ rest) c ≡ o
        → feed m emit fuel r.1 r.2 r.3 ≡ o
    unfolding feed
    on_path on e =
        ap (λ (t : Bool). if t then feed m emit fuel r.1 r.2 r.3 else result false r.1 r.3) (sym on)
        ∙ e

    stop_path :
        {o : Option (Bool × Inflater m emit × Ctx)}
        → r.0 ≡ false
        → feed m emit (suc fuel) g (b ∷ rest) c ≡ o
        → result false r.1 r.3 ≡ o
    unfolding feed
    stop_path stopped e =
        ap (λ (t : Bool). if t then feed m emit fuel r.1 r.2 r.3 else result false r.1 r.3)
          (sym stopped)
        ∙ e

  pub feed-keeps :
      (fuel : ℕ) (g : Inflater m emit) (input : List ℕ) (c : Ctx)
      → P g input c
      → (more : Bool) (g' : Inflater m emit) (c' : Ctx)
      → feed m emit fuel g input c ≡ some (more, g', c')
      → (rest : List ℕ) × P g' rest c' × ((more ≡ false) ⊎ (rest ≡ []))
  unfolding feed
  feed-keeps zero g [] c h more g' c' e = ([], at g [] c h true more g' c' e, inr refl)
  feed-keeps (suc fuel) g [] c h more g' c' e = ([], at g [] c h true more g' c' e, inr refl)
  feed-keeps zero g (b ∷ rest) c h more g' c' e =
      absurd (let none_left : none ≡ result more g' c' = e in cc)
  feed-keeps (suc fuel) g (b ∷ rest) c h more g' c' e =
      let r = round m emit g.state g b rest c in
      elim (Bool-cases r.0) [
        | inl on ↦
            feed-keeps fuel r.1 r.2 r.3 (step g b rest c h) more g' c'
              (on_path fuel g b rest c on e)
        | inr stopped ↦ (
          r.2,
          at r.1 r.2 r.3 (step g b rest c h) false more g' c' (stop_path fuel g b rest c stopped e),
          inl (stopped_at r.1 r.3 more g' c' (stop_path fuel g b rest c stopped e)),
        )
      ]
