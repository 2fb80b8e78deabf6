-- ===== src/Prelude/Int.antt =====
-- The signed integers, over the native numbers: `negsuc n` is -(n + 1).
use teg.Prelude.{
  ℕ, ◌+◌, ◌-◌, ◌*◌, ◌/◌, ◌%◌, ◌^◌, ◌≤◌, ◌≡◌, Bool, arith, if◌then◌else◌, ltb, leb, min,
}

pub data ℤ : Type 0 where
  pos negsuc : ℕ → ℤ

-- A conversion to an unsigned type of 8, 16 or 32 bits keeps the low bits.
abbrev pub to_u8 : ℤ → ℕ
to_u8 (pos n) = n % 256
to_u8 (negsuc n) = 255 - n % 256

abbrev pub to_u16 : ℤ → ℕ
to_u16 (pos n) = n % 65536
to_u16 (negsuc n) = 65535 - n % 65536

abbrev pub to_u32 : ℤ → ℕ
to_u32 (pos n) = n % 4294967296
to_u32 (negsuc n) = 4294967295 - n % 4294967296

-- A conversion to a signed type of 8 or 16 bits.
abbrev pub to_i8 : ℤ → ℤ
to_i8 z = if ltb (to_u8 z) 128 then pos (to_u8 z) else negsuc (255 - to_u8 z)

abbrev pub to_i16 : ℤ → ℤ
to_i16 z = if ltb (to_u16 z) 32768 then pos (to_u16 z) else negsuc (65535 - to_u16 z)

abbrev pub pos_part : ℤ → ℕ
pos_part (pos n) = n
pos_part (negsuc n) = 0

abbrev pub neg_part : ℤ → ℕ
neg_part (pos n) = 0
neg_part (negsuc n) = n + 1

abbrev pub nat_abs : ℤ → ℕ
nat_abs (pos n) = n
nat_abs (negsuc n) = n + 1

-- a - b, as an integer.
abbrev pub sub_ℕ : ℕ → ℕ → ℤ
sub_ℕ a b = if leb b a then pos (a - b) else negsuc (b - a - 1)

infixl 65 ◌+ℤ◌ ◌-ℤ◌
infix 50 ◌≤ℤ◌
unfoldable pub ◌+ℤ◌ : ℤ → ℤ → ℤ
a +ℤ b = sub_ℕ (pos_part a + pos_part b) (neg_part a + neg_part b)

unfoldable pub ◌-ℤ◌ : ℤ → ℤ → ℤ
a -ℤ b = sub_ℕ (pos_part a + neg_part b) (neg_part a + pos_part b)

-- A product with a number that is not negative.
unfoldable pub scale : ℤ → ℕ → ℤ
scale (pos m) n = pos (m * n)
scale (negsuc m) n = sub_ℕ 0 ((m + 1) * n)

-- `>>`, which rounds down.
unfoldable pub shift_right : ℤ → ℕ → ℤ
shift_right (pos m) n = pos (m / 2 ^ n)
shift_right (negsuc m) n = negsuc (m / 2 ^ n)

-- `/` by a positive number, which rounds towards zero.
unfoldable pub tdiv : ℤ → ℕ → ℤ
tdiv (pos m) n = pos (m / n)
tdiv (negsuc m) n = sub_ℕ 0 ((m + 1) / n)

abbrev pub ◌≤ℤ◌ : ℤ → ℤ → Type 0
a ≤ℤ b = pos_part a + neg_part b ≤ pos_part b + neg_part a

abbrev pub ltb_ℤ : ℤ → ℤ → Bool
ltb_ℤ a b = ltb (pos_part a + neg_part b) (pos_part b + neg_part a)

abbrev pub leb_ℤ : ℤ → ℤ → Bool
leb_ℤ a b = leb (pos_part a + neg_part b) (pos_part b + neg_part a)

-- With these the operations stay shut.
pub +ℤ_parts :
    (a b : ℤ)
    → pos_part (a +ℤ b) + neg_part a + neg_part b ≡ neg_part (a +ℤ b) + pos_part a + pos_part b
unfolding ◌+ℤ◌
+ℤ_parts a b = ground arith

pub -ℤ_parts :
    (a b : ℤ)
    → pos_part (a -ℤ b) + neg_part a + pos_part b ≡ neg_part (a -ℤ b) + pos_part a + neg_part b
unfolding ◌-ℤ◌
-ℤ_parts a b = ground arith

pub eq_of_parts : (a b : ℤ) → pos_part a + neg_part b ≡ pos_part b + neg_part a → a ≡ b
eq_of_parts a b h = ground arith

pub ruleset int_laws = (arith, +ℤ_parts, -ℤ_parts, eq_of_parts)

pub one_sided : (a : ℤ) → min (pos_part a) (neg_part a) ≡ 0
one_sided a = ground arith
