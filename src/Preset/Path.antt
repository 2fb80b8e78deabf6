-- ===== src/Preset/Path.antt =====
-- src/preset_name.h, `presetPath`: the path of a preset's file, in a buffer of a given size.
use teg.Prelude.{
  ℕ, ◌+◌, ◌<◌, true, false, not, Option, none, some, List, [], ◌∷◌, ◌++◌, ◌≡◌, ◌↔◌, refl, sym, ap,
  ◌∙◌, leb, if◌then◌else◌, length, drop, length-append, append-nil, append_assoc, ◌>>=◌,
  >>=-eq-some, arith,
}
use teg.Preset.{put_all, preset_path, preset_dir, extension, preset_name_valid}
use teg.Preset.Name.{IsSafe, valid_iff}

put_all-fits :
    (size : ℕ) (out cs : List ℕ)
    → length out + length cs < size
    → put_all size out cs ≡ some (out ++ cs)
unfolding put_all
put_all-fits size out [] h = ap some (sym (append-nil out))
put_all-fits size out (c ∷ cs) h =
    let rest =
      put_all-fits size (out ++ c ∷ []) cs (omega (arith, length-append out (c ∷ []), h)) in
    rw (there size out c cs h, rest, append_assoc out (c ∷ []) cs) refl
  where
    there :
        (size : ℕ) (out : List ℕ) (c : ℕ) (cs : List ℕ)
        → length out + length (c ∷ cs) < size
        → leb size (length out + 1) ≡ false
    there size out c cs h = ground arith

put_step :
    (size : ℕ) (out : List ℕ) (c : ℕ) (cs r : List ℕ)
    → put_all size out (c ∷ cs) ≡ some r
    → (length out + 1 < size) × (put_all size (out ++ c ∷ []) cs ≡ some r)
unfolding put_all
put_step size out c cs r h = ground arith

-- What a loop that succeeds wrote; a loop that wrote a character left room for the NUL.
put_all-wrote :
    (size : ℕ) (out cs r : List ℕ)
    → put_all size out cs ≡ some r
    → (r ≡ out ++ cs) × (length out < size → length r < size)
unfolding put_all
put_all-wrote size out [] r h =
    let e : out ≡ r = ground (arith, h) in (sym e ∙ sym (append-nil out), λ g. rw (sym e) g)
put_all-wrote size out (c ∷ cs) r h =
    let (room, rest) = put_step size out c cs r h in
    let (e, below) = put_all-wrote size (out ++ c ∷ []) cs r rest in
    (e ∙ append_assoc out (c ∷ []) cs, λ _. below (omega (arith, room, length-append out (c ∷ []))))

-- The path that is meant.
pub path_of : List ℕ → List ℕ
path_of name = preset_dir ++ b'/' ∷ (name ++ extension)

written : ℕ → List ℕ → Option (List ℕ)
written size name = do
  dir ← put_all size [] preset_dir
  slash ← put_all size dir (b'/' ∷ [])
  stem ← put_all size slash name
  put_all size stem extension

written-fits :
    (size : ℕ) (name : List ℕ) → length name + 14 < size → written size name ≡ some (path_of name)
unfolding written path_of
written-fits size name h =
    let dir = put_all-fits size [] preset_dir (omega arith) in
    let slash = put_all-fits size preset_dir (b'/' ∷ []) (omega arith) in
    let before = preset_dir ++ b'/' ∷ [] in
    let stem = put_all-fits size before name (omega arith) in
    let ext =
      put_all-fits size (before ++ name) extension (omega (arith, length-append before name)) in
    rw (dir, slash, stem, ext) refl

written-some :
    (size : ℕ) (name r : List ℕ)
    → written size name ≡ some r
    → (length name + 14 < size) × (r ≡ path_of name)
unfolding written path_of
written-some size name r h =
    let (dir, d, h1) = >>=-eq-some (put_all size [] preset_dir) _ h in
    let (slash, s, h2) = >>=-eq-some (put_all size dir (b'/' ∷ [])) _ h1 in
    let (stem, n, h3) = >>=-eq-some (put_all size slash name) _ h2 in
    let (ed, bd) = put_all-wrote size [] preset_dir dir d in
    let (es, bs) = put_all-wrote size dir (b'/' ∷ []) slash s in
    let (en, bn) = put_all-wrote size slash name stem n in
    let (er, br) = put_all-wrote size stem extension r h3 in
    let (some_room, _) = put_step size [] b'/' (drop 1 preset_dir) dir d in
    let e : r ≡ path_of name =
      er ∙ ap (λ x. x ++ extension) (en ∙ ap (λ x. x ++ name) (es ∙ ap (λ x. x ++ b'/' ∷ []) ed)) in
    (fits e (br (bn (bs (bd (omega (arith, some_room)))))), e)
  where
    fits : r ≡ path_of name → length r < size → length name + 14 < size
    fits e h = omega (arith, ap length e, h, length-append name extension)

path-written :
    (size : ℕ) (name : List ℕ)
    → preset_path size (some name)
      ≡ (if not (preset_name_valid (some name)) then none else written size name)
unfolding preset_path written
path-written size name = refl

-- A safe name has its path built exactly when the buffer holds the 14 characters around the name
-- and a NUL; no other name has a path.
pub preset_path_iff :
    (size : ℕ) (name r : List ℕ)
    → preset_path size (some name) ≡ some r
      ↔ (IsSafe name × (length name + 14 < size) × (r ≡ path_of name))
preset_path_iff size name r = (built, builds)
  where
    split :
        preset_path size (some name) ≡ some r
        ↔ ((preset_name_valid (some name) ≡ true) × (written size name ≡ some r))
    split = ground (arith, path-written size name)

    built :
        preset_path size (some name) ≡ some r
        → IsSafe name × (length name + 14 < size) × (r ≡ path_of name)
    built h =
        let (v, w) = split.0 h in
        let (room, e) = written-some size name r w in ((valid_iff name).0 v, room, e)

    builds :
        IsSafe name × (length name + 14 < size) × (r ≡ path_of name)
        → preset_path size (some name) ≡ some r
    builds (safe, room, e) =
        split.1 ((valid_iff name).1 safe, written-fits size name room ∙ ap some (sym e))
