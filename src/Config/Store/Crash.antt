-- ===== src/Config/Store/Crash.antt =====
-- Power failures while the configuration is saved.
use teg.Prelude.{
  ℕ, ◌≡◌, refl, ap, ◌∙◌, ◌⊎◌, inl, inr, Bool, true, false, not, ◌&&◌, Option, none, some, List, [],
  ◌∷◌, ◌++◌, arith, ◌==◌, if◌then◌else◌, Bool-cases, Option-cases, All, All-append,
}
use teg.Config.Store.{
  live, tmp, bak, not_opened, cut_short, complete, Name, Written, FileSystem, read_config_document,
  exists, Run, reads, swap_in, swap, save_configuration,
}

Written-cases : (w : Written) → (w ≡ not_opened) ⊎ (w ≡ cut_short) ⊎ (w ≡ complete)
Written-cases not_opened = inl refl
Written-cases cut_short = inr (inl refl)
Written-cases complete = inr (inr refl)

module _ {Doc : Type 0} (fs : FileSystem Doc) (read : Doc → Option ℕ) where
  abbrev pub Readable : fs.Card → Name → Type 0
  Readable s n = (g : ℕ) × (read_config_document fs read s n ≡ some g)

  -- One of the three names that loadConfiguration tries holds a complete document.
  abbrev pub Recoverable : fs.Card → Type 0
  Recoverable s = Readable s live ⊎ Readable s tmp ⊎ Readable s bak

  pub same-Readable :
      (s t : fs.Card) (n m : Name) → fs.file t m ≡ fs.file s n → Readable s n → Readable t m
  unfolding read_config_document
  same-Readable s t n m e (g, h) =
      (g, ap (λ (f : Option Doc). elim f [ none ↦ none | some doc ↦ read doc ]) e ∙ h)

  abbrev Old : fs.Card → Type 0
  Old s = Readable s live ⊎ Readable s bak

  -- A state with the same live file and the same backup.
  abbrev Keeps : fs.Card → fs.Card → Type 0
  Keeps s t = (fs.file t live ≡ fs.file s live) × (fs.file t bak ≡ fs.file s bak)

  Keeps-Recoverable : (s t : fs.Card) → Old s → Keeps s t → Recoverable t
  Keeps-Recoverable s t (inl r) k = inl (same-Readable s t live live k.0 r)
  Keeps-Recoverable s t (inr r) k = inr (inr (same-Readable s t bak bak k.1 r))

  Keeps-All :
      (s : fs.Card) (ts : List fs.Card)
      → Old s
      → All (λ t. fs.file t live ≡ fs.file s live) ts
      → All (λ t. fs.file t bak ≡ fs.file s bak) ts
      → All Recoverable ts
  Keeps-All s [] old l b = tt
  Keeps-All s (t ∷ ts) old l b = (Keeps-Recoverable s t old (l.0, b.0), Keeps-All s ts old l.1 b.1)

  swap_in-Recoverable :
      (s : fs.Card) (had : Bool) → Readable s tmp → All Recoverable (swap_in fs read s had).1
  unfolding swap_in
  swap_in-Recoverable s had r =
      let moved = fs.rename s tmp live in
      elim (Bool-cases moved.0) [
        | inl ok ↦
            rw ok ((inl (same-Readable s moved.1 tmp live (fs.rename-moved s tmp live ok) r), tt))
        | inr failed ↦
            let still =
              same-Readable s moved.1 tmp tmp (fs.rename-failed s tmp live tmp failed) r in
            let repaired =
              same-Readable moved.1 (fs.rename moved.1 bak live).1 tmp tmp
                (fs.rename-other moved.1 bak live tmp refl refl) still in
            elim (Bool-cases (had && not (exists fs read moved.1 live))) [
              | inl b ↦ rw (failed, b) ((inr (inl still), (inr (inl repaired), tt)))
              | inr b ↦ rw (failed, b) ((inr (inl still), tt))
            ]
      ]

  abbrev stays : (s t : fs.Card) → Readable s tmp → fs.file t tmp ≡ fs.file s tmp → Readable t tmp
  stays s t r e = same-Readable s t tmp tmp e r

  swap-Recoverable : (s : fs.Card) → Readable s tmp → All Recoverable (swap fs read s).1
  unfolding swap
  swap-Recoverable s r =
      let cleared = fs.remove s bak in
      let kept = fs.rename cleared live bak in
      let r1 = stays s cleared r (fs.remove-other s bak tmp refl) in
      let r2 = stays cleared kept.1 r1 (fs.rename-other cleared live bak tmp refl refl) in
      elim (Bool-cases (exists fs read cleared live)) [
        | inr none_live ↦ rw none_live ((inr (inl r1), swap_in-Recoverable cleared false r1))
        | inl had ↦ elim (Bool-cases kept.0) [
          | inl k ↦ rw (had, k) ((inr (inl r1), (inr (inl r2), swap_in-Recoverable kept.1 true r2)))
          | inr k ↦ rw (had, k) ((inr (inl r1), (inr (inl r2), tt)))
        ]
      ]

  reads-Readable : (s : fs.Card) (g : ℕ) → reads fs read s tmp g ≡ true → Readable s tmp
  reads-Readable s g h = elim (Option-cases (read_config_document fs read s tmp)) [
    | inl e ↦ absurd (
        let no : reads fs read s tmp g ≡ false =
          ap (λ (o : Option ℕ). elim o [ none ↦ false | some g' ↦ g' == g ]) e in
        ground arith)
    | inr r ↦ r
  ]

  module _ (s : fs.Card) (doc : Doc) (generation : ℕ) (old : Readable s live ⊎ Readable s bak) where
    abbrev fresh : fs.Card
    fresh = fs.remove s tmp

    abbrev written : fs.Card
    written = (fs.write fresh tmp doc).1

    abbrev passed : List fs.Card
    passed = fresh ∷ (fs.during fresh tmp doc ++ written ∷ [])

    fresh-Keeps : Keeps s fresh
    fresh-Keeps = (fs.remove-other s tmp live refl, fs.remove-other s tmp bak refl)

    written-Keeps : Keeps s written
    written-Keeps = (
      fs.write-other fresh tmp live doc refl ∙ fresh-Keeps.0,
      fs.write-other fresh tmp bak doc refl ∙ fresh-Keeps.1,
    )

    fresh-Old : Old fresh
    fresh-Old = elim old [
      | inl r ↦ inl (same-Readable s fresh live live fresh-Keeps.0 r)
      | inr r ↦ inr (same-Readable s fresh bak bak fresh-Keeps.1 r)
    ]

    passed-Recoverable : All Recoverable passed
    passed-Recoverable = (
      Keeps-Recoverable s fresh old fresh-Keeps,
      All-append Recoverable (fs.during fresh tmp doc) (written ∷ [])
          (Keeps-All fresh (fs.during fresh tmp doc) fresh-Old
            (fs.during-other fresh tmp live doc refl) (fs.during-other fresh tmp bak doc refl))
          (Keeps-Recoverable s written old written-Keeps, tt),
    )

    abandoned : All Recoverable (passed ++ fs.remove written tmp ∷ [])
    abandoned = All-append Recoverable passed (fs.remove written tmp ∷ []) passed-Recoverable (
      Keeps-Recoverable s (fs.remove written tmp) old (
        fs.remove-other written tmp live refl ∙ written-Keeps.0,
        fs.remove-other written tmp bak refl ∙ written-Keeps.1,
      ),
      tt,
    )

    abbrev ending : Written → Run fs read
    ending w = elim w [
      | not_opened ↦ (false, passed)
      | cut_short ↦ (false, passed ++ fs.remove written tmp ∷ [])
      | complete ↦
          if reads fs read written tmp generation
          then ((swap fs read written).0, passed ++ (swap fs read written).1)
          else (false, passed ++ fs.remove written tmp ∷ [])
    ]

    ending-Recoverable : (end : Written) → All Recoverable (ending end).1
    ending-Recoverable not_opened = passed-Recoverable
    ending-Recoverable cut_short = abandoned
    ending-Recoverable complete = elim (Bool-cases (reads fs read written tmp generation)) [
      | inl r ↦ rw r (
          All-append Recoverable passed (swap fs read written).1 passed-Recoverable
            (swap-Recoverable written (reads-Readable written generation r)))
      | inr r ↦ rw r abandoned
    ]

    save-ending : save_configuration fs read s doc generation ≡ ending (fs.write fresh tmp doc).0
    unfolding save_configuration
    save-ending = refl

    -- Where the live file or the backup holds a complete document when a save begins, every state
    -- that the card passes through holds one in the live file, the temporary file or the backup,
    -- whichever calls of the file system fail.
    pub save-Recoverable : All Recoverable (save_configuration fs read s doc generation).1
    save-Recoverable = rw save-ending (ending-Recoverable (fs.write fresh tmp doc).0)
