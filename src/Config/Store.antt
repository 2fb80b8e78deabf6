-- ===== src/Config/Store.antt =====
-- src/config_json.cpp: the configuration on the SD card, as a live file, a temporary one and a
-- backup. ArduinoJson, the file system and the serialiser are not read: a file holds a document of
-- any type, which a write may leave unfinished, and `read` is readConfigDocument. A step is one
-- call of the file system, and power may fail between any two.
pub mod Crash
pub mod Load
pub mod Saved
use teg.Prelude.{
  ℕ, ◌+◌, ◌-◌, ◌≡◌, Bool, true, false, not, ◌&&◌, ◌||◌, Option, none, some, List, [], ◌∷◌, ◌++◌,
  ltb, ◌==◌, if◌then◌else◌, All,
}
use teg.Prelude.Words.{add32, sub32}

pub data Name : Type 0 where
  live tmp bak bad : Name

abbrev pub same_name : Name → Name → Bool
same_name live live = true
same_name tmp tmp = true
same_name bak bak = true
same_name bad bad = true
same_name _ _ = false

-- `static_cast<int32_t>(candidate - current) > 0`
unfoldable pub generation_newer : ℕ → ℕ → Bool
generation_newer candidate current =
    let difference = sub32 candidate current in ltb 0 difference && ltb difference 2147483648

-- The generation after this one; zero is reserved for files without one.
unfoldable pub next_generation : ℕ → ℕ
next_generation generation = let next = add32 generation 1 in if next == 0 then 1 else next

-- One round of the loop over the candidates: the best so far gives way to a newer one.
unfoldable pub consider : Name → Option ℕ → Option (Name × ℕ) → Option (Name × ℕ)
consider n none best = best
consider n (some g) none = some (n, g)
consider n (some g) (some (m, b)) = if generation_newer g b then some (n, g) else some (m, b)

-- The fields that guard a document: the numbers as read, `none` for a missing field and `some none`
-- for one that is no integer. `payload_crc` is the checksum of what was read.
unfoldable pub config_integrity : Option (Option ℕ) → Option (Option ℕ) → ℕ → Option ℕ
config_integrity none none payload_crc = some 0
config_integrity none (some crc) payload_crc = none
config_integrity (some gen) none payload_crc = none
config_integrity (some none) (some crc) payload_crc = none
config_integrity (some (some g)) (some none) payload_crc = none
config_integrity (some (some g)) (some (some c)) payload_crc =
    if g == 0 || ltb 0xFFFFFFFF g || ltb 0xFFFFFFFF c
    then none
    else if c == payload_crc
    then some g
    else none

-- How the creation of a file and the serialiser's write end.
pub data Written : Type 0 where
  not_opened cut_short complete : Written

-- What the code relies on of the card. `file` is what a name holds, `during` the states that a
-- write passes through.
pub record FileSystem (Doc : Type 0) : Type 1 where
  pub Card : Type 0
  pub file : Card → Name → Option Doc
  pub remove : Card → Name → Card
  pub rename : Card → Name → Name → Bool × Card
  pub write : Card → Name → Doc → Written × Card
  pub during : Card → Name → Doc → List Card
  pub remove-other :
      (s : Card) (n m : Name) → same_name n m ≡ false → file (remove s n) m ≡ file s m
  pub rename-moved :
      (s : Card) (a b : Name) → (rename s a b).0 ≡ true → file (rename s a b).1 b ≡ file s a
  pub rename-other :
      (s : Card) (a b m : Name)
      → same_name a m ≡ false
      → same_name b m ≡ false
      → file (rename s a b).1 m ≡ file s m
  pub rename-failed :
      (s : Card) (a b m : Name) → (rename s a b).0 ≡ false → file (rename s a b).1 m ≡ file s m
  pub write-other :
      (s : Card) (n m : Name) (d : Doc) → same_name n m ≡ false → file (write s n d).1 m ≡ file s m
  pub during-other :
      (s : Card) (n m : Name) (d : Doc)
      → same_name n m ≡ false
      → All (λ w. file w m ≡ file s m) (during s n d)

module _ {Doc : Type 0} (fs : FileSystem Doc) (read : Doc → Option ℕ) where
  -- readConfigDocument: the generation of a document that is complete and intact.
  unfoldable pub read_config_document : fs.Card → Name → Option ℕ
  read_config_document s n = elim (fs.file s n) [ none ↦ none | some doc ↦ read doc ]

  unfoldable pub exists : fs.Card → Name → Bool
  exists s n = elim (fs.file s n) [ none ↦ false | some doc ↦ true ]

  -- The result, and the states of the card in order, each of which a power failure may leave.
  abbrev pub Run : Type 0
  Run = Bool × List fs.Card

  abbrev pub reads : fs.Card → Name → ℕ → Bool
  reads s n generation = elim (read_config_document s n) [ none ↦ false | some g ↦ g == generation ]

  -- The last rename, and the repair where it fails.
  unfoldable pub swap_in : fs.Card → Bool → Run
  swap_in s had_live =
      let moved = fs.rename s tmp live in
      if moved.0
      then (true, moved.1 ∷ [])
      else if had_live && not (exists moved.1 live)
      then (false, moved.1 ∷ (fs.rename moved.1 bak live).1 ∷ [])
      else (false, moved.1 ∷ [])

  -- What follows the verification of the temporary file.
  unfoldable pub swap : fs.Card → Run
  swap s =
      let cleared = fs.remove s bak in
      let kept = fs.rename cleared live bak in
      let after_keep = swap_in kept.1 true in
      let without_live = swap_in cleared false in
      if exists cleared live
      then (if kept.0
          then (after_keep.0, cleared ∷ kept.1 ∷ after_keep.1)
          else (false, cleared ∷ kept.1 ∷ []))
      else (without_live.0, cleared ∷ without_live.1)

  -- `generation` is the new document's.
  unfoldable pub save_configuration : fs.Card → Doc → ℕ → Run
  save_configuration s doc generation =
      let fresh = fs.remove s tmp in
      let (end, written) = fs.write fresh tmp doc in
      let passed = fresh ∷ (fs.during fresh tmp doc ++ written ∷ []) in
      let rest = swap written in
      elim end [
        | not_opened ↦ (false, passed)
        | cut_short ↦ (false, passed ++ fs.remove written tmp ∷ [])
        | complete ↦
            if reads written tmp generation
            then (rest.0, passed ++ rest.1)
            else (false, passed ++ fs.remove written tmp ∷ [])
      ]

  -- A candidate of loadConfiguration: `allowed` is the check of the decoded document's pins.
  unfoldable pub candidate : (Doc → Bool) → fs.Card → Name → Option ℕ
  candidate allowed s n = elim (fs.file s n) [
    | none ↦ none
    | some doc ↦ if allowed doc then read doc else none
  ]

  -- The damaged live file is kept as .bad; then the chosen file takes its name.
  unfoldable pub promote : fs.Card → Name → List fs.Card
  promote s from =
      let cleared = fs.remove s bad in
      let kept = (fs.rename cleared live bad).1 in
      if exists cleared live
      then cleared ∷ kept ∷ (fs.rename kept from live).1 ∷ []
      else cleared ∷ (fs.rename cleared from live).1 ∷ []

  unfoldable pub best_candidate : (Doc → Bool) → fs.Card → Option (Name × ℕ)
  best_candidate allowed s =
      consider bak (candidate allowed s bak)
        (consider tmp (candidate allowed s tmp) (consider live (candidate allowed s live) none))

  -- What is loaded, with its generation, and the states that the card passes through.
  unfoldable pub load_configuration : (Doc → Bool) → fs.Card → Option (Name × ℕ) × List fs.Card
  load_configuration allowed s =
      let best = best_candidate allowed s in
      (
        best,
        elim best [
          | none ↦ []
          | some (live, g) ↦ []
          | some (tmp, g) ↦ promote s tmp
          | some (bak, g) ↦ promote s bak
          | some (bad, g) ↦ []
        ],
      )
