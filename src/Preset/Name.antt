-- ===== src/Preset/Name.antt =====
-- src/preset_name.h, `presetNameValid`: what a safe file name is, said of its characters by index.
use teg.Prelude.{
  ℕ, zero, suc, ◌+◌, ◌-◌, ◌<◌, ◌≤◌, true, some, List, [], ◌∷◌, ◌≡◌, ◌≢◌, ◌↔◌, ◌⊎◌, length, get_or,
  arith,
}
use teg.Preset.{allowed, scan_name, preset_name_valid}

-- Neither a dot nor a space.
abbrev pub IsInner : ℕ → Type 0
IsInner c = (c ≢ b'.') × (c ≢ b' ')

-- A letter or a digit of ASCII, a space, `_`, `-` or a dot.
abbrev pub IsNameChar : ℕ → Type 0
IsNameChar c =
    ((b'a' ≤ c) × (c ≤ b'z'))
    ⊎ ((b'A' ≤ c) × (c ≤ b'Z'))
    ⊎ ((b'0' ≤ c) × (c ≤ b'9'))
    ⊎ (c ≡ b' ')
    ⊎ (c ≡ b'_')
    ⊎ (c ≡ b'-')
    ⊎ (c ≡ b'.')

allowed_iff : (c : ℕ) → allowed c ≡ true ↔ IsNameChar c
allowed_iff c = ground arith

pub record IsSafe (name : List ℕ) : Type 0 where
  pub nonempty : 0 < length name
  pub short : length name ≤ 32
  pub characters : (i : ℕ) → i < length name → IsNameChar (get_or name i 0)
  pub first : IsInner (get_or name 0 0)
  pub last : IsInner (get_or name (length name - 1) 0)
  pub no_parent :
      (i : ℕ) → i + 1 < length name → get_or name i 0 ≡ b'.' → get_or name (suc i) 0 ≢ b'.'

-- What the loop has still to find at the n-th character, `prev` being the one before.
record Scans (n prev : ℕ) (s : List ℕ) : Type 0 where
  short : n + length s ≤ 32
  characters : (i : ℕ) → i < length s → allowed (get_or s i 0) ≡ true
  last : IsInner (get_or (prev ∷ s) (length s) 0)
  no_parent : (i : ℕ) → i < length s → get_or (prev ∷ s) i 0 ≡ b'.' → get_or s i 0 ≢ b'.'

scan_end : (n prev : ℕ) → scan_name n prev [] ≡ true ↔ IsInner prev
unfolding scan_name
scan_end n prev = ground arith

scan_step :
    (n prev c : ℕ) (cs : List ℕ)
    → scan_name n prev (c ∷ cs) ≡ true
      ↔ ((n < 32) × (allowed c ≡ true) × (prev ≡ b'.' → c ≢ b'.') × (scan_name (n + 1) c cs ≡ true))
unfolding scan_name
scan_step n prev c cs = ground arith

scan-Scans : (n prev : ℕ) (s : List ℕ) → n ≤ 32 → scan_name n prev s ≡ true → Scans n prev s
scan-Scans n prev [] small h = record {
  short = omega arith;
  characters = λ i g. absurd (omega arith);
  last = (scan_end n prev).0 h;
  no_parent = λ i g. absurd (omega arith);
}
scan-Scans n prev (c ∷ cs) small h =
    let (below, ok, apart, tail) = (scan_step n prev c cs).0 h in
    let rest = scan-Scans (n + 1) c cs (omega arith) tail in
    record {
      short = omega (arith, rest.short);
      characters = characters ok rest;
      last = rest.last;
      no_parent = no_parent apart rest;
    }
  where
    characters :
        allowed c ≡ true
        → Scans (n + 1) c cs
        → (i : ℕ) → i < length (c ∷ cs)
        → allowed (get_or (c ∷ cs) i 0) ≡ true
    characters ok rest zero g = ok
    characters ok rest (suc i) g = rest.characters i (omega arith)

    no_parent :
        (prev ≡ b'.' → c ≢ b'.')
        → Scans (n + 1) c cs
        → (i : ℕ) → i < length (c ∷ cs)
        → get_or (prev ∷ c ∷ cs) i 0 ≡ b'.'
        → get_or (c ∷ cs) i 0 ≢ b'.'
    no_parent apart rest zero g = apart
    no_parent apart rest (suc i) g = rest.no_parent i (omega arith)

Scans-scan : (n prev : ℕ) (s : List ℕ) → Scans n prev s → scan_name n prev s ≡ true
Scans-scan n prev [] s = (scan_end n prev).1 s.last
Scans-scan n prev (c ∷ cs) s =
    let tail : Scans (n + 1) c cs = record {
      short = omega (arith, s.short);
      characters = λ i g. s.characters (suc i) (omega arith);
      last = s.last;
      no_parent = λ i g. s.no_parent (suc i) (omega arith);
    } in
    (scan_step n prev c cs).1 (
      omega (arith, s.short),
      s.characters 0 (omega arith),
      s.no_parent 0 (omega arith),
      Scans-scan (n + 1) c cs tail,
    )

head_iff :
    (c : ℕ) (cs : List ℕ)
    → preset_name_valid (some (c ∷ cs)) ≡ true ↔ (IsInner c × (scan_name 0 0 (c ∷ cs) ≡ true))
unfolding preset_name_valid
head_iff c cs = ground arith

-- A name passes exactly when it is safe: 1 to 32 letters, digits, spaces, `_`, `-` and dots, no dot
-- or space at either end, and no two dots together.
pub valid_iff : (name : List ℕ) → preset_name_valid (some name) ≡ true ↔ IsSafe name
unfolding preset_name_valid
valid_iff [] = (λ h. absurd (ground arith), λ s. absurd (omega (arith, s.nonempty)))
valid_iff (c ∷ cs) = (safe, valid)
  where
    e : suc (length cs) - 1 ≡ length cs
    e = omega arith

    safe : preset_name_valid (some (c ∷ cs)) ≡ true → IsSafe (c ∷ cs)
    safe h =
        let (inner, scanned) = (head_iff c cs).0 h in
        let s = scan-Scans 0 0 (c ∷ cs) (omega arith) scanned in
        record {
          nonempty = omega arith;
          short = omega (arith, s.short);
          characters = λ i g. (allowed_iff (get_or (c ∷ cs) i 0)).0 (s.characters i g);
          first = inner;
          last = rw e s.last;
          no_parent = λ i g. s.no_parent (suc i) (omega arith);
        }

    no_pair :
        IsSafe (c ∷ cs)
        → (i : ℕ) → i < length (c ∷ cs)
        → get_or (0 ∷ c ∷ cs) i 0 ≡ b'.'
        → get_or (c ∷ cs) i 0 ≢ b'.'
    no_pair s zero g = λ e _. absurd (omega (arith, e))
    no_pair s (suc i) g = s.no_parent i (omega arith)

    valid : IsSafe (c ∷ cs) → preset_name_valid (some (c ∷ cs)) ≡ true
    valid s = (head_iff c cs).1 (
      s.first,
      Scans-scan 0 0 (c ∷ cs) (record {
        short = omega (arith, s.short);
        characters = λ i g. (allowed_iff (get_or (c ∷ cs) i 0)).1 (s.characters i g);
        last = rw e at s.last;
        no_parent = no_pair s;
      }),
    )
