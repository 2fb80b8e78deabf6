-- ===== src/Ota/Hex/Digits.antt =====
-- Pairs of hex digits of src/hex_parse.h: what they read, and the loop over the pairs of a record.
use teg.Prelude.{
  ℕ, zero, suc, ◌+◌, ◌/◌, ◌%◌, ◌<◌, ◌≡◌, refl, ap, ◌∙◌, some, List, [], ◌∷◌, ◌++◌, >>=-eq-some,
  get_or, drop, length, All, arith,
}
use teg.Prelude.Words.{u32, IsU8}
use teg.Prelude.Bits.{bit_or-shift}
use teg.Ota.Hex.{hex_nibble, hex_byte_at, read_pairs}
use teg.Ota.Hex.Spec.{hex_digit, hex_text, total}

hex_nibble-digit : (n : ℕ) → n < 16 → hex_nibble (hex_digit n) ≡ some n
unfolding hex_nibble hex_digit
hex_nibble-digit n h = ground arith

hex_nibble-lt : (c : ℕ) {n : ℕ} → hex_nibble c ≡ some n → n < 16
unfolding hex_nibble
hex_nibble-lt c h = ground arith

pub hex_byte_at-text :
    (b : ℕ) (s : List ℕ)
    → b < 256
    → hex_byte_at (hex_digit (b / 16) ∷ hex_digit (b % 16) ∷ s) ≡ some b
unfolding hex_byte_at
hex_byte_at-text b s h =
    rw (hex_nibble-digit (b / 16) (omega arith), hex_nibble-digit (b % 16) (omega arith))
      (ap some (bit_or-shift 4 (b / 16) (b % 16) (omega arith) ∙ omega arith))

pub hex_byte_at-IsU8 : (s : List ℕ) {b : ℕ} → hex_byte_at s ≡ some b → IsU8 b
unfolding hex_byte_at
hex_byte_at-IsU8 s {b} e =
    let (hi, eh, e') = >>=-eq-some (hex_nibble (get_or s 0 0)) _ e in
    let (lo, el, e'') = >>=-eq-some (hex_nibble (get_or s 1 0)) _ e' in
    let lo_lt : lo < 16 = hex_nibble-lt _ el in
    ground (arith, bit_or-shift 4 hi lo lo_lt, hex_nibble-lt _ eh)

-- The 32-bit sum that the loop ends with.
pub sum_from : ℕ → List ℕ → ℕ
sum_from acc [] = acc
sum_from acc (b ∷ bs) = sum_from (u32 (acc + b)) bs

-- Its low byte is that of the true sum.
pub sum_from-mod : (acc : ℕ) (bs : List ℕ) → sum_from acc bs % 256 ≡ (acc + total bs) % 256
unfolding sum_from total
sum_from-mod acc [] = omega arith
sum_from-mod acc (b ∷ bs) = omega (arith, sum_from-mod (u32 (acc + b)) bs)

-- The loop reads back what the printer wrote, and stops behind it.
pub read_pairs-text :
    (bs tail : List ℕ) (acc : ℕ)
    → All IsU8 bs
    → read_pairs (length bs) (hex_text bs ++ tail) acc ≡ some (bs, sum_from acc bs, tail)
unfolding read_pairs hex_text sum_from
read_pairs-text [] tail acc h = refl
read_pairs-text (b ∷ bs) tail acc h =
    rw (hex_byte_at-text b (hex_text bs ++ tail) h.0)
      (rw (read_pairs-text bs tail (u32 (acc + b)) h.1))

-- What the loop accepts is so many bytes, and their sum.
pub read_pairs-bytes :
    (n : ℕ) (s : List ℕ) (acc : ℕ) {bs : List ℕ} {sum : ℕ} {tail : List ℕ}
    → read_pairs n s acc ≡ some (bs, sum, tail)
    → All IsU8 bs × (length bs ≡ n) × (sum ≡ sum_from acc bs)
unfolding read_pairs sum_from
read_pairs-bytes zero s acc e = ground arith
read_pairs-bytes (suc n) s acc {bs} {sum} {tail} e =
    let (b, eb, e') = >>=-eq-some (hex_byte_at s) _ e in
    let ((more, t, r), em, e'') = >>=-eq-some (read_pairs n (drop 2 s) (u32 (acc + b))) _ e' in
    ground (arith, hex_byte_at-IsU8 s eb, read_pairs-bytes n (drop 2 s) (u32 (acc + b)) em)
