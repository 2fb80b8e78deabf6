-- ===== src/Scope/Run.antt =====
-- src/scope_math.h: a capture from the arming to the freeze, sample by sample.
use teg.Prelude.{
  ℕ, zero, suc, ◌^◌, ◌<◌, ◌≤◌, inl, inr, Bool-cases, Bool, true, false, List, [], ◌∷◌, ◌++◌, ◌≡◌,
  refl, ap, ◌∙◌, ◌==◌, length, All, replicate, arith,
}
use teg.Prelude.Words.{sub32}
use teg.Scope.{
  ScopeState, ScopeMachine, scope_arm, scope_step, step_in, step_armed, step_triggered, pre_side,
  armed, triggered, complete,
}

-- The machine through a list of samples, with what `step` answers at each.
pub run : ScopeMachine → List ℕ → List Bool × ScopeMachine
run m [] = ([], m)
run m (x ∷ xs) =
    let (answer, next) = scope_step m x in
    let (answers, last) = run next xs in (answer ∷ answers, last)

-- One step of a run, from what the machine does on the sample.
run-step :
    (m : ScopeMachine) (x : ℕ) (xs : List ℕ) {answer : Bool} {next : ScopeMachine}
    → scope_step m x ≡ (answer, next)
    → (run m (x ∷ xs)).0 ≡ answer ∷ (run next xs).0
unfolding run
run-step m x xs e = rw e refl

module _ (level : ℕ) (falling : Bool) (total : ℕ) where
  abbrev machine : ScopeState → Bool → ℕ → ScopeMachine
  machine state primed left = record {
    state = state;
    level = level;
    falling_edge = falling;
    primed = primed;
    post_total = total;
    post_remaining = left;
  }

  -- The side of the level that the edge comes from: below it for a rising edge, at it or above for a
  -- falling one.
  abbrev pub Before : ℕ → Type 0
  Before x = elim falling [ false ↦ x < level | true ↦ level ≤ x ]

  -- The other side.
  abbrev pub Beyond : ℕ → Type 0
  Beyond x = elim falling [ false ↦ level ≤ x | true ↦ x < level ]

  Before-pre_side : (x : ℕ) → Before x → pre_side (machine armed false 0) x ≡ true
  Before-pre_side x h = elim (Bool-cases falling) [
    | inl e ↦ ground (arith, rw e at h)
    | inr e ↦ ground (arith, rw e at h)
  ]

  Beyond-pre_side : (x : ℕ) → Beyond x → pre_side (machine armed false 0) x ≡ false
  Beyond-pre_side x h = elim (Bool-cases falling) [
    | inl e ↦ ground (arith, rw e at h)
    | inr e ↦ ground (arith, rw e at h)
  ]

  abbrev silent : ℕ → List Bool
  silent n = replicate n false

  step-Before :
      (primed : Bool) (x : ℕ)
      → Before x
      → scope_step (machine armed primed 0) x ≡ (false, machine armed true 0)
  unfolding scope_step step_in step_armed
  step-Before primed x h = rw (Before-pre_side x h) refl

  step-Beyond :
      (x : ℕ) → Beyond x → scope_step (machine armed false 0) x ≡ (false, machine armed false 0)
  unfolding scope_step step_in step_armed
  step-Beyond x h = rw (Beyond-pre_side x h) refl

  step_complete :
      (left : ℕ) (primed : Bool) (x : ℕ)
      → scope_step (machine complete primed left) x ≡ (false, machine complete primed left)
  unfolding scope_step step_in
  step_complete left primed x = refl

  step_last : (x : ℕ) → scope_step (machine triggered true 1) x ≡ (true, machine complete true 0)
  unfolding scope_step step_in step_triggered
  step_last x = refl

  step_more :
      (left x : ℕ)
      → suc (suc left) < 2 ^ 32
      → scope_step (machine triggered true (suc (suc left))) x
        ≡ (false, machine triggered true (suc left))
  unfolding scope_step step_in step_triggered
  step_more left x h =
      let e : sub32 (suc (suc left)) 1 ≡ suc left = omega arith in
      let ne : (suc left == 0) ≡ false = ground arith in rw (e, ne) refl

  run-complete :
      (left : ℕ) (primed : Bool) (xs : List ℕ)
      → (run (machine complete primed left) xs).0 ≡ silent (length xs)
  unfolding run
  run-complete left primed [] = refl
  run-complete left primed (x ∷ xs) =
      run-step _ _ xs (step_complete left primed x)
      ∙ ap (λ t. false ∷ t) (run-complete left primed xs)

  run-triggered :
      (left : ℕ) (xs rest : List ℕ)
      → length xs ≡ suc left
      → suc left < 2 ^ 32
      → (run (machine triggered true (suc left)) (xs ++ rest)).0
        ≡ silent left ++ true ∷ silent (length rest)
  run-triggered left [] rest len small = absurd (omega (arith, len))
  run-triggered zero (x ∷ []) rest len small =
      run-step _ _ rest (step_last x) ∙ ap (λ t. true ∷ t) (run-complete 0 true rest)
  run-triggered zero (x ∷ y ∷ xs) rest len small = absurd (omega (arith, len))
  run-triggered (suc left) (x ∷ xs) rest len small =
      run-step _ _ (xs ++ rest) (step_more left x small)
      ∙ ap (λ t. false ∷ t) (run-triggered left xs rest (omega (arith, len)) (omega arith))

  run-Beyond :
      (xs rest : List ℕ)
      → All Beyond xs
      → (run (machine armed false 0) (xs ++ rest)).0
        ≡ silent (length xs) ++ (run (machine armed false 0) rest).0
  run-Beyond [] rest h = refl
  run-Beyond (x ∷ xs) rest (here, there) =
      run-step _ _ (xs ++ rest) (step-Beyond x here)
      ∙ ap (λ t. false ∷ t) (run-Beyond xs rest there)

  run-Before :
      (primed : Bool) (x : ℕ) (xs rest : List ℕ)
      → All Before (x ∷ xs)
      → (run (machine armed primed 0) (x ∷ xs ++ rest)).0
        ≡ silent (length (x ∷ xs)) ++ (run (machine armed true 0) rest).0
  run-Before primed x [] rest (here, there) = run-step _ _ rest (step-Before primed x here)
  run-Before primed x (y ∷ ys) rest (here, there) =
      run-step _ _ (y ∷ ys ++ rest) (step-Before primed x here)
      ∙ ap (λ t. false ∷ t) (run-Before true y ys rest there)

run-crossing :
    (level : ℕ) (falling : Bool) (total x : ℕ) (post rest : List ℕ)
    → Beyond level falling total x
    → length post ≡ total
    → total < 2 ^ 32
    → (run (machine level falling total armed true 0) (x ∷ post ++ rest)).0
      ≡ replicate total false ++ true ∷ replicate (length rest) false
unfolding scope_step step_in step_armed
run-crossing level falling zero x [] rest h len small =
    run-step _ _ rest (crossed x h) ∙ ap (λ t. true ∷ t) (run-complete level falling 0 0 true rest)
  where
    crossed :
        (x : ℕ)
        → Beyond level falling 0 x
        → scope_step (machine level falling 0 armed true 0) x
          ≡ (true, machine level falling 0 complete true 0)
    crossed x h = rw (Beyond-pre_side level falling 0 x h) refl
run-crossing level falling zero x (y ∷ ys) rest h len small = absurd (omega (arith, len))
run-crossing level falling (suc n) x post rest h len small =
    run-step _ _ (post ++ rest) (crossed x h)
    ∙ ap (λ t. false ∷ t) (run-triggered level falling (suc n) n post rest len small)
  where
    crossed :
        (x : ℕ)
        → Beyond level falling (suc n) x
        → scope_step (machine level falling (suc n) armed true 0) x
          ≡ (false, machine level falling (suc n) triggered true (suc n))
    crossed x h =
        let ne : (suc n == 0) ≡ false = ground arith in
        rw (Beyond-pre_side level falling (suc n) x h, ne) refl

-- From any state of the machine, an arming and then samples that start beyond the level, come to the
-- side the edge starts from (below it for a rising edge, at it or above for a falling one), cross it,
-- and go on: the machine says "freeze" exactly once, when it
-- has seen the requested number of samples after the crossing one.
pub arm-freeze :
    (m : ScopeMachine) (level : ℕ) (falling : Bool) (total : ℕ) (beyond : List ℕ) (near : ℕ)
    (nears : List ℕ) (edge : ℕ) (post rest : List ℕ)
    → All (Beyond level falling total) beyond
    → All (Before level falling total) (near ∷ nears)
    → Beyond level falling total edge
    → length post ≡ total
    → total < 2 ^ 32
    → (run
        (scope_arm m level falling total)
        (beyond ++ ((near ∷ nears) ++ (edge ∷ (post ++ rest))))).0
      ≡ replicate (length beyond) false
        ++ (replicate (length (near ∷ nears)) false
            ++ (replicate total false ++ (true ∷ replicate (length rest) false)))
unfolding scope_arm
arm-freeze m level falling total beyond near nears edge post rest far close cross len small =
    run-Beyond level falling total beyond ((near ∷ nears) ++ (edge ∷ (post ++ rest))) far
    ∙ ap (λ t. replicate (length beyond) false ++ t)
        (run-Before level falling total false near nears (edge ∷ (post ++ rest)) close
          ∙ ap (λ t. replicate (length (near ∷ nears)) false ++ t)
              (run-crossing level falling total edge post rest cross len small))
