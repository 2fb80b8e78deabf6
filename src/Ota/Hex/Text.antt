-- ===== src/Ota/Hex/Text.antt =====
-- src/hex_parse.h: how a line spells the bytes of a record, said without the parser.
use teg.Prelude.{
  ℕ, zero, suc, ◌+◌, ◌*◌, ◌<◌, ◌≤◌, ◌≡◌, ◌≢◌, refl, ap, sym, ◌∙◌, ◌⊎◌, inl, inr, true, Bool-cases,
  some, List, [], ◌∷◌, ◌++◌, >>=-eq-some, drop, All, arith,
}
use teg.Prelude.Words.{u32}
use teg.Prelude.Bits.{bit_or-shift}
use teg.Ota.Hex.{hex_nibble, hex_byte_at, is_space, skip_space, read_pairs}

-- A blank, a tab or an end of line.
abbrev pub IsBlank : ℕ → Type 0
IsBlank c = (c ≡ b' ') ⊎ (c ≡ b'\t') ⊎ (c ≡ b'\r') ⊎ (c ≡ b'\n')

-- The digit of value n.
abbrev pub IsDigit : ℕ → ℕ → Type 0
IsDigit c n =
    ((c ≡ b'0' + n) × (n < 10))
    ⊎ ((c + 10 ≡ b'A' + n) × (10 ≤ n) × (n < 16))
    ⊎ ((c + 10 ≡ b'a' + n) × (10 ≤ n) × (n < 16))

-- Two digits of a byte, the more significant first.
pub record IsPair (hi lo byte : ℕ) : Type 0 where
  pub high : ℕ
  pub low : ℕ
  pub high_IsDigit : IsDigit hi high
  pub low_IsDigit : IsDigit lo low
  pub value : byte ≡ 16 * high + low

-- The text is the pairs of digits of the bytes in order.
unfoldable pub Spells : List ℕ → List ℕ → Type 0
Spells [] [] = Unit
Spells [] (b ∷ bs) = ⊥
Spells (c ∷ []) bs = ⊥
Spells (hi ∷ lo ∷ s) [] = ⊥
Spells (hi ∷ lo ∷ s) (b ∷ bs) = IsPair hi lo b × Spells s bs

-- The line of a record: its mark, the digits of its bytes, and white space around.
pub record IsText (line bytes : List ℕ) : Type 0 where
  pub before : List ℕ
  pub digits : List ℕ
  pub after : List ℕ
  pub cut : line ≡ before ++ b':' ∷ (digits ++ after)
  pub before_IsBlank : All IsBlank before
  pub spells : Spells digits bytes
  pub after_IsBlank : All IsBlank after

is_space-IsBlank : (c : ℕ) → is_space c ≡ true → IsBlank c
is_space-IsBlank c = ground arith

-- What the loop over the white space leaves.
pub skip_space-cut :
    (s : List ℕ) → (before : List ℕ) × All IsBlank before × (s ≡ before ++ skip_space s)
unfolding skip_space
skip_space-cut [] = ([], tt, refl)
skip_space-cut (c ∷ s) = elim (Bool-cases (is_space c)) [
  | inl e ↦
      let (before, blank, cut) = skip_space-cut s in
      rw e ((c ∷ before, (is_space-IsBlank c e, blank), ap (λ t. c ∷ t) cut))
  | inr e ↦ rw e (([], tt, refl))
]

pub skip_space-IsBlank : (s : List ℕ) → skip_space s ≡ [] → All IsBlank s
unfolding skip_space
skip_space-IsBlank [] e = tt
skip_space-IsBlank (c ∷ s) e = elim (Bool-cases (is_space c)) [
  | inl b ↦ (is_space-IsBlank c b, skip_space-IsBlank s (rw b at e))
  | inr b ↦ absurd (let no_go : c ∷ s ≡ [] = rw b at e in cc)
]

pub skip_space-head :
    (s : List ℕ) {c : ℕ} {rest : List ℕ}
    → skip_space s ≡ c ∷ rest
    → (c ≢ b' ') × (c ≢ b'\t') × (c ≢ b'\r') × (c ≢ b'\n')
unfolding skip_space
skip_space-head [] e = absurd (cc)
skip_space-head (x ∷ s) {c} {rest} e = elim (Bool-cases (is_space x)) [
  | inl b ↦ skip_space-head s (rw b at e)
  | inr b ↦ let same : x ∷ s ≡ c ∷ rest = rw b at e in ground arith
]

hex_nibble-IsDigit : (c : ℕ) {n : ℕ} → hex_nibble c ≡ some n → IsDigit c n
unfolding hex_nibble
hex_nibble-IsDigit c e = ground arith

no_nul : (n : ℕ) → hex_nibble 0 ≡ some n → ⊥
unfolding hex_nibble
no_nul n e = cc

-- A pair that is read stands at the beginning of the text, and its value is the digits'.
pub hex_byte_at-IsPair :
    (s : List ℕ) {b : ℕ}
    → hex_byte_at s ≡ some b
    → (hi : ℕ) × (lo : ℕ) × (rest : List ℕ) × (s ≡ hi ∷ lo ∷ rest) × IsPair hi lo b
unfolding hex_byte_at
hex_byte_at-IsPair [] e = let (x, ex, e') = >>=-eq-some (hex_nibble 0) _ e in absurd (no_nul x ex)
hex_byte_at-IsPair (c ∷ []) e =
    let (hi, eh, e') = >>=-eq-some (hex_nibble c) _ e in
    let (x, ex, e'') = >>=-eq-some (hex_nibble 0) _ e' in absurd (no_nul x ex)
hex_byte_at-IsPair (x ∷ y ∷ s) {b} e =
    let (hi, eh, e') = >>=-eq-some (hex_nibble x) _ e in
    let (lo, el, e'') = >>=-eq-some (hex_nibble y) _ e' in
    let dh = hex_nibble-IsDigit x eh in
    let dl = hex_nibble-IsDigit y el in
    (
      x,
      y,
      s,
      refl,
      record {
        high = hi;
        low = lo;
        high_IsDigit = dh;
        low_IsDigit = dl;
        value = ground (arith, bit_or-shift 4 hi lo (ground (arith, dl)));
      },
    )

pub read_pairs-Spells :
    (n : ℕ) (s : List ℕ) (acc : ℕ) {bs : List ℕ} {sum : ℕ} {tail : List ℕ}
    → read_pairs n s acc ≡ some (bs, sum, tail)
    → (digits : List ℕ) × (s ≡ digits ++ tail) × Spells digits bs
unfolding read_pairs Spells
read_pairs-Spells zero s acc {bs} {sum} {tail} e =
    let empty : bs ≡ [] = ground arith in
    let same : s ≡ tail = ground arith in ([], same, rw empty tt)
read_pairs-Spells (suc n) s acc {bs} {sum} {tail} e =
    let (b, eb, e') = >>=-eq-some (hex_byte_at s) _ e in
    let ((more, t, r), em, e'') = >>=-eq-some (read_pairs n (drop 2 s) (u32 (acc + b))) _ e' in
    let (hi, lo, rest, es, pair) = hex_byte_at-IsPair s eb in
    let (digits, cut, spelled) = read_pairs-Spells n (drop 2 s) (u32 (acc + b)) em in
    let whole : bs ≡ b ∷ more = ground arith in
    let behind : r ≡ tail = ground arith in
    let after : rest ≡ digits ++ tail = ap (drop 2) (sym es) ∙ cut ∙ ap (λ x. digits ++ x) behind in
    (hi ∷ lo ∷ digits, es ∙ ap (λ x. hi ∷ lo ∷ x) after, rw whole (pair, spelled))
