-- ===== src/Config/Store/Load.antt =====
-- What is loaded when the board starts, and power failures while it is put in place.
use teg.Prelude.{
  ℕ, ◌+◌, ◌≤◌, ◌<◌, ◌≡◌, refl, sym, ap, ◌∙◌, ◌↔◌, ◌⊎◌, inl, inr, Bool, true, false, Option, none,
  some, List, [], arith, if◌then◌else◌, Bool-cases, Option-cases, All,
}
use teg.Config.Store.{
  live, tmp, bak, bad, Name, same_name, generation_newer, consider, FileSystem,
  read_config_document, exists, candidate, promote, best_candidate, load_configuration,
}
use teg.Config.Store.Crash.{Readable, Recoverable, same-Readable}

-- A generation of the half of the counter's range above `base`.
abbrev pub Recent : ℕ → ℕ → Type 0
Recent base g = (base ≤ g) × (g < base + 2147483648) × (g < 4294967296)

newer_iff : (base a b : ℕ) → Recent base a → Recent base b → (generation_newer a b ≡ true) ↔ (b < a)
unfolding generation_newer
newer_iff base a b ha hb = ground arith

-- The candidate is not newer than the best.
abbrev pub AtLeast : Option ℕ → Option (Name × ℕ) → Type 0
AtLeast none best = Unit
AtLeast (some g) none = ⊥
AtLeast (some g) (some (n, b)) = g ≤ b

abbrev pub AllRecent : ℕ → Option (Name × ℕ) → Type 0
AllRecent base none = Unit
AllRecent base (some (n, b)) = Recent base b

abbrev pub OneRecent : ℕ → Option ℕ → Type 0
OneRecent base none = Unit
OneRecent base (some b) = Recent base b

module _ (base : ℕ) (n : Name) where
  consider-recent :
      (c : Option ℕ) (best : Option (Name × ℕ))
      → OneRecent base c
      → AllRecent base best
      → AllRecent base (consider n c best)
  unfolding consider
  consider-recent none best hc hb = hb
  consider-recent (some g) none hc hb = hc
  consider-recent (some g) (some (m, b)) hc hb = elim (Bool-cases (generation_newer g b)) [
    | inl e ↦ rw e hc
    | inr e ↦ rw e hb
  ]

  consider_self :
      (c : Option ℕ) (best : Option (Name × ℕ))
      → OneRecent base c
      → AllRecent base best
      → AtLeast c (consider n c best)
  unfolding consider
  consider_self none best hc hb = tt
  consider_self (some g) none hc hb = omega arith
  consider_self (some g) (some (m, b)) hc hb = elim (Bool-cases (generation_newer g b)) [
    | inl e ↦ rw e (omega arith)
    | inr e ↦ rw e (ground (arith, newer_iff base g b hc hb))
  ]

  consider_mono :
      (x c : Option ℕ) (best : Option (Name × ℕ))
      → OneRecent base c
      → AllRecent base best
      → AtLeast x best
      → AtLeast x (consider n c best)
  unfolding consider
  consider_mono none c best hc hb h = tt
  consider_mono (some x) none best hc hb h = h
  consider_mono (some x) (some g) none hc hb h = absurd h
  consider_mono (some x) (some g) (some (m, b)) hc hb h = elim (Bool-cases (generation_newer g b)) [
    | inl e ↦ rw e (ground (arith, newer_iff base g b hc hb))
    | inr e ↦ rw e h
  ]

-- The live file at a generation, or a name whose generation is above.
abbrev pub Leads : ℕ → Option (Name × ℕ) → Type 0
Leads generation best =
    (best ≡ some (live, generation))
    ⊎ ((n : Name) × (g : ℕ) × (best ≡ some (n, g)) × (generation < g))

Leads-le : (generation : ℕ) (n : Name) (b : ℕ) → Leads generation (some (n, b)) → generation ≤ b
Leads-le generation n b h = ground arith

-- A tie keeps the one that was considered first.
consider-Leads :
    (base generation : ℕ) (n : Name) (c : Option ℕ) (best : Option (Name × ℕ))
    → OneRecent base c
    → AllRecent base best
    → Leads generation best
    → Leads generation (consider n c best)
unfolding consider
consider-Leads base generation n none best hc hb h = h
consider-Leads base generation n (some g) none hc hb h = absurd (ground arith)
consider-Leads base generation n (some g) (some (m, b)) hc hb h =
    elim (Bool-cases (generation_newer g b)) [
      | inl e ↦
          rw e
            (inr (n, g, refl, ground (arith, newer_iff base g b hc hb, Leads-le generation m b h)))
      | inr e ↦ rw e h
    ]

consider-cases :
    (n : Name) (c : Option ℕ) (best : Option (Name × ℕ))
    → (consider n c best ≡ best) ⊎ ((g : ℕ) × (c ≡ some g) × (consider n c best ≡ some (n, g)))
unfolding consider
consider-cases n none best = inl refl
consider-cases n (some g) none = inr (g, refl, refl)
consider-cases n (some g) (some (m, b)) = elim (Bool-cases (generation_newer g b)) [
  | inl e ↦ inr (g, refl, rw e refl)
  | inr e ↦ inl (rw e refl)
]

pub some-injective : {A : Type 0} {a b : A} → some a ≡ some b → a ≡ b
some-injective e = cc

module _ {Doc : Type 0} (fs : FileSystem Doc) (read : Doc → Option ℕ) (allowed : Doc → Bool) where
  abbrev found : fs.Card → Name → Option ℕ
  found = candidate fs read allowed

  -- What is loaded is a candidate of those three names, and no candidate is newer.
  pub record IsNewest (s : fs.Card) (best : Option (Name × ℕ)) : Type 0 where
    pub from_live : AtLeast (candidate fs read allowed s live) best
    pub from_tmp : AtLeast (candidate fs read allowed s tmp) best
    pub from_bak : AtLeast (candidate fs read allowed s bak) best
    pub stored : (n : Name) (g : ℕ) → best ≡ some (n, g) → candidate fs read allowed s n ≡ some g
    pub tried : (n : Name) (g : ℕ) → best ≡ some (n, g) → (n ≡ live) ⊎ (n ≡ tmp) ⊎ (n ≡ bak)

  abbrev Tried : Option (Name × ℕ) → Type 0
  Tried best = (n : Name) (g : ℕ) → best ≡ some (n, g) → (n ≡ live) ⊎ (n ≡ tmp) ⊎ (n ≡ bak)

  consider-Tried :
      (n : Name) (c : Option ℕ) (best : Option (Name × ℕ))
      → (n ≡ live) ⊎ (n ≡ tmp) ⊎ (n ≡ bak)
      → Tried best
      → Tried (consider n c best)
  consider-Tried n c best place h m g e = elim (consider-cases n c best) [
    | inl kept ↦ h m g (sym kept ∙ e)
    | inr (k, is_found, taken) ↦
        let same : (n, k) ≡ (m, g) = some-injective (sym taken ∙ e) in
        let moved : n ≡ m = ap (λ (p : Name × ℕ). p.0) same in rw (← moved) place
  ]

  best-Tried : (s : fs.Card) → Tried (load_configuration fs read allowed s).0
  unfolding load_configuration best_candidate
  best-Tried s =
      let first = consider live (found s live) none in
      let second = consider tmp (found s tmp) first in
      consider-Tried bak (found s bak) second (inr (inr refl)) (
        consider-Tried tmp (found s tmp) first (inr (inl refl)) (
          consider-Tried live (found s live) none (inl refl)
            (λ n g e. absurd (let no_name : none ≡ some (n, g) = e in cc))))

  abbrev Stored : fs.Card → Option (Name × ℕ) → Type 0
  Stored s best = (n : Name) (g : ℕ) → best ≡ some (n, g) → found s n ≡ some g

  consider-Stored :
      (s : fs.Card) (n : Name) (best : Option (Name × ℕ))
      → Stored s best
      → Stored s (consider n (found s n) best)
  consider-Stored s n best h m g e = elim (consider-cases n (found s n) best) [
    | inl kept ↦ h m g (sym kept ∙ e)
    | inr (k, is_found, taken) ↦
        let same : (n, k) ≡ (m, g) = some-injective (sym taken ∙ e) in
        sym (ap (λ (p : Name × ℕ). found s p.0) same)
        ∙ is_found
        ∙ ap (λ (p : Name × ℕ). some p.1) same
  ]

  best-Stored : (s : fs.Card) → Stored s (load_configuration fs read allowed s).0
  unfolding load_configuration best_candidate
  best-Stored s =
      let first = consider live (found s live) none in
      let second = consider tmp (found s tmp) first in
      consider-Stored s bak second (
        consider-Stored s tmp first (
          consider-Stored s live none
            (λ n g e. absurd (let no_name : none ≡ some (n, g) = e in cc))))

  -- What loadConfiguration picks is one of the candidates among the live file, the temporary file
  -- and the backup, and none of them is newer, where their generations lie in one half of the
  -- counter's range; it picks something where there is a candidate.
  pub best-IsNewest :
      (s : fs.Card) (base : ℕ)
      → OneRecent base (found s live)
      → OneRecent base (found s tmp)
      → OneRecent base (found s bak)
      → IsNewest s (load_configuration fs read allowed s).0
  unfolding load_configuration best_candidate
  best-IsNewest s base hl ht hb =
      let first = consider live (found s live) none in
      let second = consider tmp (found s tmp) first in
      let r1 = consider-recent base live (found s live) none hl tt in
      let r2 = consider-recent base tmp (found s tmp) first ht r1 in
      record {
        from_live = consider_mono base bak (found s live) (found s bak) second hb r2 (
            consider_mono base tmp (found s live) (found s tmp) first ht r1
              (consider_self base live (found s live) none hl tt));
        from_tmp =
            consider_mono base bak (found s tmp) (found s bak) second hb r2
              (consider_self base tmp (found s tmp) first ht r1);
        from_bak = consider_self base bak (found s bak) second hb r2;
        stored = best-Stored s;
        tried = best-Tried s;
      }

  -- Where the live file is a candidate, only a newer one comes before it.
  pub load-Leads :
      (s : fs.Card) (base generation : ℕ)
      → found s live ≡ some generation
      → OneRecent base (some generation)
      → OneRecent base (found s tmp)
      → OneRecent base (found s bak)
      → Leads generation (load_configuration fs read allowed s).0
  unfolding load_configuration best_candidate consider
  load-Leads s base generation is_live hl ht hb =
      let first : Option (Name × ℕ) = some (live, generation) in
      let second = consider tmp (found s tmp) first in
      let r2 = consider-recent base tmp (found s tmp) first ht hl in
      rw is_live (
        consider-Leads base generation bak (found s bak) second hb r2
          (consider-Leads base generation tmp (found s tmp) first ht hl (inl refl)))

  last_rename :
      (s : fs.Card) (from : Name)
      → ((t : fs.Card) → Readable fs read t from → Recoverable fs read t)
      → Readable fs read s from
      → Recoverable fs read (fs.rename s from live).1
  last_rename s from place r =
      let moved = fs.rename s from live in
      elim (Bool-cases moved.0) [
        | inl ok ↦
            inl (same-Readable fs read s moved.1 from live (fs.rename-moved s from live ok) r)
        | inr failed ↦
            place moved.1 (
              same-Readable fs read s moved.1 from from (fs.rename-failed s from live from failed)
                r)
      ]

  promote-steps :
      (s : fs.Card) (from : Name)
      → same_name bad from ≡ false
      → same_name live from ≡ false
      → ((t : fs.Card) → Readable fs read t from → Recoverable fs read t)
      → Readable fs read s from
      → All (Recoverable fs read) (promote fs read s from)
  unfolding promote
  promote-steps s from apart_bad apart_live place r =
      let cleared = fs.remove s bad in
      let kept = (fs.rename cleared live bad).1 in
      let r1 = same-Readable fs read s cleared from from (fs.remove-other s bad from apart_bad) r in
      let r2 =
        same-Readable fs read cleared kept from from
          (fs.rename-other cleared live bad from apart_live apart_bad) r1 in
      elim (Bool-cases (exists fs read cleared live)) [
        | inl e ↦ rw e ((place cleared r1, (place kept r2, (last_rename kept from place r2, tt))))
        | inr e ↦ rw e ((place cleared r1, (last_rename cleared from place r1, tt)))
      ]

  allowed_part :
      (doc : Doc) (g : ℕ) → (if allowed doc then read doc else none) ≡ some g → read doc ≡ some g
  allowed_part doc g h = ground arith

  candidate-Readable : (s : fs.Card) (n : Name) (g : ℕ) → found s n ≡ some g → Readable fs read s n
  unfolding candidate read_config_document
  candidate-Readable s n g h = elim (Option-cases (fs.file s n)) [
    | inl e ↦ absurd (
        let nothing : none ≡ some g =
          sym (
            ap
              (λ (f : Option Doc). elim f [
                | none ↦ none
                | some doc ↦ if allowed doc then read doc else none
              ])
              e)
          ∙ h in
        cc)
    | inr (doc, e) ↦
        let at : (if allowed doc then read doc else none) ≡ some g =
          sym (
            ap
              (λ (f : Option Doc). elim f [
                | none ↦ none
                | some d ↦ if allowed d then read d else none
              ])
              e)
          ∙ h in
        (
          g,
          ap (λ (f : Option Doc). elim f [ none ↦ none | some d ↦ read d ]) e
              ∙ allowed_part doc g at,
        )
  ]

  abbrev promotions : fs.Card → Option (Name × ℕ) → List fs.Card
  promotions s best = elim best [
    | none ↦ []
    | some (live, g) ↦ []
    | some (tmp, g) ↦ promote fs read s tmp
    | some (bak, g) ↦ promote fs read s bak
    | some (bad, g) ↦ []
  ]

  promotions-Recoverable :
      (s : fs.Card) (best : Option (Name × ℕ))
      → Stored s best
      → All (Recoverable fs read) (promotions s best)
  promotions-Recoverable s none h = tt
  promotions-Recoverable s (some (live, g)) h = tt
  promotions-Recoverable s (some (tmp, g)) h =
      promote-steps s tmp refl refl (λ t r. inr (inl r)) (candidate-Readable s tmp g (h tmp g refl))
  promotions-Recoverable s (some (bak, g)) h =
      promote-steps s bak refl refl (λ t r. inr (inr r)) (candidate-Readable s bak g (h bak g refl))
  promotions-Recoverable s (some (bad, g)) h = tt

  -- Whatever power failure there is while the chosen file takes the live file's name, and whichever
  -- calls fail, a complete document stays where the next start looks for it.
  pub load-Recoverable :
      (s : fs.Card) → All (Recoverable fs read) (load_configuration fs read allowed s).1
  unfolding load_configuration
  load-Recoverable s =
      promotions-Recoverable s (load_configuration fs read allowed s).0 (best-Stored s)
