-- ===== src/Ota/Verify/Image.antt =====
-- src/ota_verify.h: the parts of an image that the checks look at.
use teg.Prelude.{
  ℕ, zero, suc, ◌+◌, ◌*◌, ◌<◌, ◌≤◌, ◌≡◌, refl, inl, inr, true, Bool-cases, List, [], ◌∷◌, ◌==◌,
  ==_iff, &&_true, arith,
}
use teg.Prelude.Words.{IsU8, IsU32}
use teg.Prelude.Bits.{word_le}
use teg.Ota.Verify.{Image, ota_read_u32, project_marker, matches_at, find_marker}

abbrev pub IsBytes : Image → Type 0
IsBytes img = (i : ℕ) → IsU8 (img i)

-- The little-endian word at an offset, as a sum.
pub read_u32_lem :
    (img : Image) (off : ℕ)
    → IsBytes img
    → ota_read_u32 img off
      ≡ img off + img (off + 1) * 256 + img (off + 2) * 65536 + img (off + 3) * 16777216
unfolding ota_read_u32
read_u32_lem img off h =
    word_le (img off) (img (off + 1)) (img (off + 2)) (img (off + 3)) (h off) (h (off + 1))
      (h (off + 2)) (h (off + 3))

pub read_word-IsU32 : (img : Image) (off : ℕ) → IsBytes img → IsU32 (ota_read_u32 img off)
read_word-IsU32 img off h =
    omega (arith, read_u32_lem img off h, h off, h (off + 1), h (off + 2), h (off + 3))

-- The text stands at an offset.
abbrev pub StandsAt : Image → ℕ → List ℕ → Type 0
StandsAt img i [] = Unit {0}
StandsAt img i (c ∷ cs) = (img i ≡ c) × StandsAt img (i + 1) cs

matches→StandsAt :
    (img : Image) (i : ℕ) (cs : List ℕ) → matches_at img i cs ≡ true → StandsAt img i cs
unfolding matches_at
matches→StandsAt img i [] h = tt
matches→StandsAt img i (c ∷ cs) h =
    let (here, more) = &&_true (img i == c) (matches_at img (i + 1) cs) h in
    ((==_iff _ _).0 here, matches→StandsAt img (i + 1) cs more)

StandsAt→matches :
    (img : Image) (i : ℕ) (cs : List ℕ) → StandsAt img i cs → matches_at img i cs ≡ true
unfolding matches_at
StandsAt→matches img i [] h = refl
StandsAt→matches img i (c ∷ cs) h = ground (arith, h.0, StandsAt→matches img (i + 1) cs h.1)

-- The marker occurs within the `n` places from `i` on.
abbrev pub HasMarker : Image → ℕ → ℕ → Type 0
HasMarker img i n = (k : ℕ) × (i ≤ k) × (k < i + n) × StandsAt img k project_marker

pub find→HasMarker : (n : ℕ) (img : Image) (i : ℕ) → find_marker n img i ≡ true → HasMarker img i n
unfolding find_marker
find→HasMarker zero img i h = absurd (cc)
find→HasMarker (suc n) img i h = elim (Bool-cases (matches_at img i project_marker)) [
  | inl here ↦ (i, omega arith, omega arith, matches→StandsAt img i project_marker here)
  | inr miss ↦
      let (k, lo, hi, at) = find→HasMarker n img (i + 1) (ground arith) in
      (k, omega arith, omega arith, at)
]

pub HasMarker→find :
    (n : ℕ) (img : Image) (i k : ℕ)
    → i ≤ k
    → k < i + n
    → StandsAt img k project_marker
    → find_marker n img i ≡ true
unfolding find_marker
HasMarker→find zero img i k lo hi at = absurd (omega arith)
HasMarker→find (suc n) img i k lo hi at = elim (Bool-cases (i == k)) [
  | inl here ↦
      let e : i ≡ k = (==_iff i k).0 here in rw (e, StandsAt→matches img k project_marker at)
  | inr before ↦ ground (arith, HasMarker→find n img (i + 1) k (ground arith) (omega arith) at)
]
