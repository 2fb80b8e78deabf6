-- ===== src/Preset.antt =====
-- src/preset_name.h: names of configuration presets, which become file names on the SD card.
-- A string is the list of its characters before the NUL; a null pointer is `none`.
pub mod Name
pub mod Path
pub mod File
use teg.Prelude.{
  ◌>>=◌, ℕ, ◌+◌, ◌-◌, Bool, true, false, not, ◌&&◌, ◌||◌, Option, none, some, List, [], ◌∷◌, ◌++◌,
  ltb, leb, ◌==◌, if◌then◌else◌, length, take, drop,
}

abbrev pub preset_name_max : ℕ
preset_name_max = 32

-- "/presets" and ".json"
abbrev pub preset_dir : List ℕ
preset_dir = b'/' ∷ b'p' ∷ b'r' ∷ b'e' ∷ b's' ∷ b'e' ∷ b't' ∷ b's' ∷ []

abbrev pub extension : List ℕ
extension = b'.' ∷ b'j' ∷ b's' ∷ b'o' ∷ b'n' ∷ []

abbrev pub alnum : ℕ → Bool
alnum ch =
    (leb b'a' ch && leb ch b'z') || (leb b'A' ch && leb ch b'Z') || (leb b'0' ch && leb ch b'9')

abbrev pub allowed : ℕ → Bool
allowed ch = alnum ch || ch == b' ' || ch == b'_' || ch == b'-' || ch == b'.'

-- The loop, at the n-th character and with the one before.
unfoldable pub scan_name : ℕ → ℕ → List ℕ → Bool
scan_name n prev [] = not (prev == b' ') && not (prev == b'.')
scan_name n prev (ch ∷ cs) =
    let rest = scan_name (n + 1) ch cs in
    if leb preset_name_max n
    then false
    else if not (allowed ch)
    then false
    else if ch == b'.' && prev == b'.'
    then false
    else rest

unfoldable pub preset_name_valid : Option (List ℕ) → Bool
preset_name_valid none = false
preset_name_valid (some []) = false
preset_name_valid (some (c ∷ cs)) = if c == b'.' || c == b' ' then false else scan_name 0 0 (c ∷ cs)

-- A copying loop into a buffer of `size` that already holds `out`.
unfoldable pub put_all : ℕ → List ℕ → List ℕ → Option (List ℕ)
put_all size out [] = some out
put_all size out (c ∷ cs) =
    let rest = put_all size (out ++ c ∷ []) cs in if leb size (length out + 1) then none else rest

abbrev pub or_empty : Option (List ℕ) → List ℕ
or_empty none = []
or_empty (some s) = s

unfoldable pub preset_path : ℕ → Option (List ℕ) → Option (List ℕ)
preset_path size name =
    let built = (do
      dir ← put_all size [] preset_dir
      slash ← put_all size dir (b'/' ∷ [])
      stem ← put_all size slash (or_empty name)
      put_all size stem extension) in
    if not (preset_name_valid name) then none else built

unfoldable pub preset_lower : ℕ → ℕ
preset_lower c = if leb b'A' c && leb c b'Z' then c - b'A' + b'a' else c

-- `while (*a && *b)` and `*a == *b` behind it.
unfoldable pub equal_fold : List ℕ → List ℕ → Bool
equal_fold [] [] = true
equal_fold [] (b ∷ ys) = false
equal_fold (a ∷ xs) [] = false
equal_fold (a ∷ xs) (b ∷ ys) =
    let rest = equal_fold xs ys in if not (preset_lower a == preset_lower b) then false else rest

unfoldable pub preset_names_equal_fold : Option (List ℕ) → Option (List ℕ) → Bool
preset_names_equal_fold none b = false
preset_names_equal_fold (some a) none = false
preset_names_equal_fold (some a) (some b) = equal_fold a b

-- The comparison with the extension: the first list is lowered.
unfoldable pub matches_lowered : List ℕ → List ℕ → Bool
matches_lowered [] [] = true
matches_lowered [] (e ∷ es) = false
matches_lowered (c ∷ cs) [] = false
matches_lowered (c ∷ cs) (e ∷ es) =
    let rest = matches_lowered cs es in if not (preset_lower c == e) then false else rest

-- The name, or `none` where the function returns false.
unfoldable pub preset_name_from_file : ℕ → Option (List ℕ) → Option (List ℕ)
preset_name_from_file size none = none
preset_name_from_file size (some filename) =
    let len = length filename in
    let stem = take (len - 5) filename in
    if leb len 5 || leb size (len - 5)
    then none
    else if not (matches_lowered (drop (len - 5) filename) extension)
    then none
    else if ltb preset_name_max (len - 5)
    then none
    else if not (preset_name_valid (some stem))
    then none
    else some stem
