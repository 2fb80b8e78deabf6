-- ===== src/Config/Store/Saved.antt =====
-- What a save that succeeds leaves, and what is loaded from it.
use teg.Prelude.{
  ℕ, ◌<◌, ◌≡◌, ◌⊎◌, refl, sym, ap, ◌∙◌, inl, inr, Bool, true, false, not, ◌&&◌, Option, none, some,
  List, [], ◌∷◌, ◌++◌, arith, ◌==◌, if◌then◌else◌, Bool-cases, Option-cases, ==_iff,
}
use teg.Config.Store.{
  live, tmp, bak, not_opened, cut_short, complete, Name, Written, FileSystem, read_config_document,
  exists, Run, reads, swap_in, swap, save_configuration, candidate, load_configuration,
}
use teg.Config.Store.Load.{OneRecent, best-IsNewest, load-Leads, some-injective}

-- The last of the states that the card passes through.
abbrev pub last_of : {A : Type 0} → A → List A → A
last_of s [] = s
last_of s (t ∷ ts) = last_of t ts

last_of-append :
    {A : Type 0} (s : A) (xs : List A) (t : A) (ts : List A)
    → last_of s ((xs ++ t ∷ []) ++ ts) ≡ last_of t ts
last_of-append s [] t ts = refl
last_of-append s (x ∷ xs) t ts = last_of-append x xs t ts

module _ {Doc : Type 0} (fs : FileSystem Doc) (read : Doc → Option ℕ) where
  -- The live file at the end of a run that succeeds is the temporary file of its beginning.
  abbrev Moves : fs.Card → Run fs read → Type 0
  Moves s run = run.0 ≡ true → fs.file (last_of s run.1) live ≡ fs.file s tmp

  swap_in-Moves : (s : fs.Card) (had : Bool) → Moves s (swap_in fs read s had)
  unfolding swap_in
  swap_in-Moves s had =
      let moved = fs.rename s tmp live in
      elim (Bool-cases moved.0) [
        | inl ok ↦ rw ok (λ h. fs.rename-moved s tmp live ok)
        | inr failed ↦ elim (Bool-cases (had && not (exists fs read moved.1 live))) [
          | inl b ↦ rw (failed, b) (λ h. absurd (let no_go : false ≡ true = h in cc))
          | inr b ↦ rw (failed, b) (λ h. absurd (let no_go : false ≡ true = h in cc))
        ]
      ]

  swap-Moves : (s : fs.Card) → Moves s (swap fs read s)
  unfolding swap
  swap-Moves s =
      let cleared = fs.remove s bak in
      let kept = fs.rename cleared live bak in
      let r1 = fs.remove-other s bak tmp refl in
      let r2 = fs.rename-other cleared live bak tmp refl refl in
      elim (Bool-cases (exists fs read cleared live)) [
        | inr none_live ↦ rw none_live (λ h. swap_in-Moves cleared false h ∙ r1)
        | inl had ↦ elim (Bool-cases kept.0) [
          | inl k ↦ rw (had, k) (λ h. swap_in-Moves kept.1 true h ∙ r2 ∙ r1)
          | inr k ↦ rw (had, k) (λ h. absurd (let no_go : false ≡ true = h in cc))
        ]
      ]

  reads-same :
      (s : fs.Card) (g : ℕ)
      → reads fs read s tmp g ≡ true
      → read_config_document fs read s tmp ≡ some g
  reads-same s g h = elim (Option-cases (read_config_document fs read s tmp)) [
    | inl e ↦ absurd (
        let no_go : reads fs read s tmp g ≡ false =
          ap (λ (o : Option ℕ). elim o [ none ↦ false | some g' ↦ g' == g ]) e in
        ground arith)
    | inr (g', e) ↦
        let same : (g' == g) ≡ true =
          sym (ap (λ (o : Option ℕ). elim o [ none ↦ false | some g' ↦ g' == g ]) e) ∙ h in
        e ∙ ap some ((==_iff g' g).0 same)
  ]

  allowed_read :
      {allowed : Doc → Bool} {g : ℕ} (f : Option Doc)
      → ((d : Doc) → f ≡ some d → allowed d ≡ true)
      → elim f [ none ↦ none | some d ↦ read d ] ≡ some g
      → elim f [ none ↦ none | some d ↦ if allowed d then read d else none ] ≡ some g
  allowed_read none pass e = e
  allowed_read (some d) pass e = rw (pass d refl) e

  module _ (s : fs.Card) (doc : Doc) (generation : ℕ) where
    abbrev fresh : fs.Card
    fresh = fs.remove s tmp

    abbrev written : fs.Card
    written = (fs.write fresh tmp doc).1

    abbrev passed : List fs.Card
    passed = fresh ∷ (fs.during fresh tmp doc ++ written ∷ [])

    abbrev ending : Written → Run fs read
    ending w = elim w [
      | not_opened ↦ (false, passed)
      | cut_short ↦ (false, passed ++ fs.remove written tmp ∷ [])
      | complete ↦
          if reads fs read written tmp generation
          then ((swap fs read written).0, passed ++ (swap fs read written).1)
          else (false, passed ++ fs.remove written tmp ∷ [])
    ]

    abbrev Stores : Run fs read → Type 0
    Stores run =
        run.0 ≡ true
        → ((fs.write fresh tmp doc).0 ≡ complete)
          × (fs.file (last_of s run.1) live ≡ fs.file written tmp)
          × (read_config_document fs read (last_of s run.1) live ≡ some generation)

    passed-last : (ts : List fs.Card) → last_of s (passed ++ ts) ≡ last_of written ts
    passed-last ts = last_of-append fresh (fs.during fresh tmp doc) written ts

    verified-Stores :
        (fs.write fresh tmp doc).0 ≡ complete
        → reads fs read written tmp generation ≡ true
        → Stores ((swap fs read written).0, passed ++ (swap fs read written).1)
    unfolding read_config_document
    verified-Stores end r ok =
        let moved =
          ap (λ t. fs.file t live) (passed-last (swap fs read written).1) ∙ swap-Moves written ok in
        (
          end,
          moved,
          ap (λ (f : Option Doc). elim f [ none ↦ none | some d ↦ read d ]) moved
              ∙ reads-same written generation r,
        )

    complete-Stores : (fs.write fresh tmp doc).0 ≡ complete → Stores (ending complete)
    complete-Stores end = elim (Bool-cases (reads fs read written tmp generation)) [
      | inl r ↦ rw r (verified-Stores end r)
      | inr r ↦ rw r (λ h. absurd (let no_go : false ≡ true = h in cc))
    ]

    ending-Stores : (w : Written) → (fs.write fresh tmp doc).0 ≡ w → Stores (ending w)
    ending-Stores not_opened end h = absurd (let no_go : false ≡ true = h in cc)
    ending-Stores cut_short end h = absurd (let no_go : false ≡ true = h in cc)
    ending-Stores complete end h = complete-Stores end h

    -- A save that succeeds leaves the live file with what was written, of the new generation.
    save-Stores : Stores (save_configuration fs read s doc generation)
    unfolding save_configuration
    save-Stores = ending-Stores (fs.write fresh tmp doc).0 refl

    abbrev end : fs.Card
    end = last_of s (save_configuration fs read s doc generation).1

    module _ (allowed : Doc → Bool) (base : ℕ) where
      abbrev found : Name → Option ℕ
      found = candidate fs read allowed end

      -- The loaded document is the live file's, which is the saved one, or is of a generation above.
      abbrev pub IsLoaded : Option (Name × ℕ) → Type 0
      IsLoaded best =
          ((best ≡ some (live, generation)) × (fs.file end live ≡ some doc))
          ⊎ ((n : Name) × (g : ℕ) × (best ≡ some (n, g)) × (generation < g) × (found n ≡ some g))

      found-live :
          ((d : Doc) → fs.file end live ≡ some d → allowed d ≡ true)
          → read_config_document fs read end live ≡ some generation
          → found live ≡ some generation
      unfolding candidate read_config_document
      found-live pass e = allowed_read (fs.file end live) pass e

      -- A configuration that was saved successfully is what is loaded at the next start, unless a
      -- strictly newer one is there, where a write that is reported complete holds the document, the
      -- document passes the check of the pins, and the generations on the card lie in one half of
      -- the counter's range.
      pub save-IsLoaded :
          ((fs.write fresh tmp doc).0 ≡ complete → fs.file written tmp ≡ some doc)
          → (save_configuration fs read s doc generation).0 ≡ true
          → allowed doc ≡ true
          → OneRecent base (some generation)
          → OneRecent base (found tmp)
          → OneRecent base (found bak)
          → IsLoaded (load_configuration fs read allowed end).0
      save-IsLoaded whole ok pass hl ht hb =
          let (ended, moved, is_read) = save-Stores ok in
          let held : fs.file end live ≡ some doc = moved ∙ whole ended in
          let is_live = found-live (λ d e. rw (some-injective (sym held ∙ e)) at pass) is_read in
          let newest = best-IsNewest fs read allowed end base (rw is_live hl) ht hb in
          elim (load-Leads fs read allowed end base generation is_live hl ht hb) [
            | inl e ↦ inl (e, held)
            | inr (n, g, e, above) ↦ inr (n, g, e, above, newest.stored n g e)
          ]
