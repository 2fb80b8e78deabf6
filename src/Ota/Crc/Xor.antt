-- ===== src/Ota/Crc/Xor.antt =====
-- Laws of `^` at variables, from its binary digits.
use Prim.Native.Nat.{differ, min, bit_and, bit_xor-bitwise, bit_and-bitwise}
use native.Mathlib.Nat.{pow-suc}
use teg.Prelude.{ℕ, zero, suc, ◌+◌, ◌*◌, ◌/◌, ◌%◌, ◌^◌, ◌<◌, ◌≤◌, ◌≡◌, refl, ◌∙◌, bit_xor, arith}
use teg.Prelude.Bits.{go_fuel}

differ_lem : (x y : ℕ) → x < 2 → y < 2 → differ x y ≡ (x + y) % 2
differ_lem zero y hx hy = omega arith
differ_lem (suc zero) zero hx hy = refl
differ_lem (suc zero) (suc zero) hx hy = refl
differ_lem (suc zero) (suc (suc y)) hx hy = absurd (omega arith)
differ_lem (suc (suc x)) y hx hy = absurd (omega arith)

bit_xor-zero_left : (b : ℕ) → bit_xor 0 b ≡ b
bit_xor-zero_left b = bit_xor-bitwise 0 b

pub bit_xor-halves : (a b : ℕ) → bit_xor a b ≡ bit_xor (a / 2) (b / 2) * 2 + (a + b) % 2
bit_xor-halves zero b = omega (arith, bit_xor-zero_left b, bit_xor-zero_left (b / 2))
bit_xor-halves (suc a) b = omega (
  arith,
  bit_xor-bitwise (suc a) b,
  bit_xor-bitwise (suc a / 2) (b / 2),
  go_fuel (λ y. y) differ (suc a / 2) (b / 2) a (suc a / 2) (omega arith) (omega arith),
  differ_lem (suc a % 2) (b % 2) (omega arith) (omega arith),
)

xor_halved : (a b : ℕ) → bit_xor a b / 2 ≡ bit_xor (a / 2) (b / 2)
xor_halved a b = omega (arith, bit_xor-halves a b)

cancel_fuel : (n a c : ℕ) → a + c ≤ n → bit_xor (bit_xor a c) c ≡ a
cancel_fuel zero zero zero h = refl
cancel_fuel zero zero (suc c) h = absurd (omega arith)
cancel_fuel zero (suc a) c h = absurd (omega arith)
cancel_fuel (suc n) zero zero h = refl
cancel_fuel (suc n) a c h = ground (
  arith,
  bit_xor-halves a c,
  bit_xor-halves (bit_xor a c) c,
  xor_halved a c,
  cancel_fuel n (a / 2) (c / 2),
)

pub bit_xor_cancel : (a c : ℕ) → bit_xor (bit_xor a c) c ≡ a
bit_xor_cancel a c = cancel_fuel (a + c) a c (omega arith)

comm_fuel : (n a c : ℕ) → a + c ≤ n → bit_xor a c ≡ bit_xor c a
comm_fuel zero zero zero h = refl
comm_fuel zero zero (suc c) h = absurd (omega arith)
comm_fuel zero (suc a) c h = absurd (omega arith)
comm_fuel (suc n) zero zero h = refl
comm_fuel (suc n) a c h =
    ground (arith, bit_xor-halves a c, bit_xor-halves c a, comm_fuel n (a / 2) (c / 2))

pub bit_xor_comm : (a c : ℕ) → bit_xor a c ≡ bit_xor c a
bit_xor_comm a c = comm_fuel (a + c) a c (omega arith)

pub bit_xor-zero : (a : ℕ) → bit_xor a 0 ≡ a
bit_xor-zero a = bit_xor_comm a 0 ∙ bit_xor-zero_left a

pub bit_xor-lt : (k a b : ℕ) → a < 2 ^ k → b < 2 ^ k → bit_xor a b < 2 ^ k
bit_xor-lt zero zero zero ha hb = omega arith
bit_xor-lt zero zero (suc b) ha hb = absurd (omega arith)
bit_xor-lt zero (suc a) b ha hb = absurd (omega arith)
bit_xor-lt (suc k) a b ha hb = omega (
  arith,
  pow-suc 2 k,
  bit_xor-halves a b,
  bit_xor-lt k (a / 2) (b / 2) (omega (arith, pow-suc 2 k)) (omega (arith, pow-suc 2 k)),
)

-- The bit above a width passes through.
pub bit_xor-top : (k a b : ℕ) → a < 2 ^ k → b < 2 ^ k → bit_xor a (2 ^ k + b) ≡ 2 ^ k + bit_xor a b
bit_xor-top zero zero zero ha hb = refl
bit_xor-top zero zero (suc b) ha hb = absurd (omega arith)
bit_xor-top zero (suc a) b ha hb = absurd (omega arith)
bit_xor-top (suc k) a b ha hb = ground (
  arith,
  pow-suc 2 k,
  bit_xor-halves a b,
  bit_xor-halves a (2 ^ suc k + b),
  bit_xor-top k (a / 2) (b / 2),
)

bit_and-halves : (a b : ℕ) → bit_and a b ≡ bit_and (a / 2) (b / 2) * 2 + min (a % 2) (b % 2)
bit_and-halves zero b = omega (arith, bit_and-bitwise 0 b, bit_and-bitwise 0 (b / 2))
bit_and-halves (suc a) b = omega (
  arith,
  bit_and-bitwise (suc a) b,
  bit_and-bitwise (suc a / 2) (b / 2),
  go_fuel (λ y. 0) min (suc a / 2) (b / 2) a (suc a / 2) (omega arith) (omega arith),
)

and_zero_fuel : (n a : ℕ) → a ≤ n → bit_and a 0 ≡ 0
and_zero_fuel n zero h = refl
and_zero_fuel zero (suc a) h = absurd (omega arith)
and_zero_fuel (suc n) (suc a) h =
    omega (arith, bit_and-halves (suc a) 0, and_zero_fuel n (suc a / 2) (omega arith))

pub bit_and-one : (a : ℕ) → bit_and a 1 ≡ a % 2
bit_and-one a = omega (arith, bit_and-halves a 1, and_zero_fuel (a / 2) (a / 2) (omega arith))

and_le_fuel : (n a b : ℕ) → a ≤ n → bit_and a b ≤ a
and_le_fuel n zero b h = omega (arith, bit_and-bitwise 0 b)
and_le_fuel zero (suc a) b h = absurd (omega arith)
and_le_fuel (suc n) (suc a) b h =
    omega (arith, bit_and-halves (suc a) b, and_le_fuel n (suc a / 2) (b / 2) (omega arith))

pub bit_and-le : (a b : ℕ) → bit_and a b ≤ a
bit_and-le a b = and_le_fuel a a b (omega arith)
