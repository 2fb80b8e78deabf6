-- ===== src/Preset/File.antt =====
-- src/preset_name.h, `presetNameFromFile`: the directory entry of a preset, read back.
use teg.Prelude.{
  ℕ, zero, suc, ◌+◌, ◌-◌, ◌<◌, ◌≤◌, true, some, List, [], ◌∷◌, ◌++◌, ◌≡◌, ◌↔◌, refl, sym, ap, ◌∙◌,
  length, take, drop, length-append, take-append, drop-append, length-drop, arith,
}
use teg.Preset.{preset_name_from_file, matches_lowered, extension, preset_name_valid}
use teg.Preset.Name.{IsSafe, valid_iff}

-- The extension in either case of its letters.
abbrev pub IsExtension : List ℕ → Type 0
IsExtension ext = (length ext ≡ 5) × (matches_lowered ext extension ≡ true)

module _ (size : ℕ) (file : List ℕ) where
  abbrev stem_size : ℕ
  stem_size = length file - 5

  from_file_iff :
      (name : List ℕ)
      → preset_name_from_file size (some file) ≡ some name ↔ (
          (5 < length file)
          × (stem_size < size)
          × (matches_lowered (drop stem_size file) extension ≡ true)
          × (preset_name_valid (some (take stem_size file)) ≡ true)
          × (stem_size ≤ 32)
          × (take stem_size file ≡ name))
  unfolding preset_name_from_file
  from_file_iff name = ground arith

-- The file of a safe name that fits the buffer is read back as that name, in either case of the extension's letters.
pub from_file-name :
    (size : ℕ) (name ext : List ℕ)
    → IsSafe name
    → IsExtension ext
    → length name < size
    → preset_name_from_file size (some (name ++ ext)) ≡ some name
from_file-name size name ext safe (len, match) room = (from_file_iff size (name ++ ext) name).1 (
  omega (arith, l, safe.nonempty),
  omega (arith, stem),
  rw (stem, drop-append name ext) match,
  rw (stem, take-append name ext) ((valid_iff name).1 safe),
  omega (arith, stem, safe.short),
  rw (stem, take-append name ext) refl,
)
  where
    l : length (name ++ ext) ≡ length name + 5
    l = omega (arith, length-append name ext, len)

    stem : length (name ++ ext) - 5 ≡ length name
    stem = omega (arith, l)

take-drop : (n : ℕ) (xs : List ℕ) → take n xs ++ drop n xs ≡ xs
take-drop zero xs = refl
take-drop (suc n) [] = refl
take-drop (suc n) (x ∷ xs) = ap (λ t. x ∷ t) (take-drop n xs)

-- An entry that is read as a preset is a safe name and an extension, and the name fits the buffer.
pub from_file-Name :
    (size : ℕ) (file name : List ℕ)
    → preset_name_from_file size (some file) ≡ some name
    → (ext : List ℕ) × (file ≡ name ++ ext) × IsExtension ext × IsSafe name × (length name < size)
from_file-Name size file name h =
    let (long, room, match, valid, short, e) = (from_file_iff size file name).0 h in
    let n = length file - 5 in
    let split : file ≡ name ++ drop n file =
      sym (take-drop n file) ∙ ap (λ t. t ++ drop n file) e in
    let len : length (drop n file) ≡ 5 = omega (arith, length-drop n file) in
    let stem : length name ≡ n =
      omega (arith, ap length split, length-append name (drop n file), len) in
    (drop n file, split, (len, match), (valid_iff name).0 (rw e at valid), omega (arith, stem))
