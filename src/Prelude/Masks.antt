-- ===== src/Prelude/Masks.antt =====
-- Laws of `&` at variables, and of `|` under a mask.
use Prim.Native.Nat.{
  ℕ, zero, suc, ◌+◌, ◌*◌, ◌/◌, ◌%◌, ◌≤◌, min, max, bit_and, bit_or, bit_and-bitwise,
}
use mathlib.Core.Path.{◌≡◌}
use native.Mathlib.Omega.{arith}
use teg.Prelude.Bits.{go_fuel, bit_or-halves}

pub bit_and-halves : (a b : ℕ) → bit_and a b ≡ bit_and (a / 2) (b / 2) * 2 + min (a % 2) (b % 2)
bit_and-halves zero b = omega (arith, bit_and-bitwise 0 b, bit_and-bitwise 0 (b / 2))
bit_and-halves (suc a) b = omega (
  arith,
  bit_and-bitwise (suc a) b,
  bit_and-bitwise (suc a / 2) (b / 2),
  go_fuel (λ y. zero) min (suc a / 2) (b / 2) a (suc a / 2) (omega arith) (omega arith),
)

bit_and_zero : (m : ℕ) → bit_and 0 m ≡ 0
bit_and_zero m = omega (arith, bit_and-bitwise 0 m)

-- What a mask takes out of a union it takes out of both parts.
masked-below :
    (n x y m : ℕ)
    → x ≤ n
    → y ≤ n
    → bit_and (bit_or x y) m ≡ 0
    → (bit_and x m ≡ 0) × (bit_and y m ≡ 0)
masked-below zero zero zero m hx hy h = (bit_and_zero m, bit_and_zero m)
masked-below zero (suc x) y m hx hy h = absurd (omega arith)
masked-below zero zero (suc y) m hx hy h = absurd (omega arith)
masked-below (suc n) x y m hx hy h =
    let union = bit_or-halves x y in
    let all = bit_and-halves (bit_or x y) m in
    let half : bit_or x y / 2 ≡ bit_or (x / 2) (y / 2) = omega (arith, union) in
    let upper : bit_and (bit_or (x / 2) (y / 2)) (m / 2) ≡ 0 = rw (← half) (omega (arith, all)) in
    let rest = masked-below n (x / 2) (y / 2) (m / 2) (omega arith) (omega arith) upper in
    (
      omega (arith, union, all, rest.0, bit_and-halves x m),
      omega (arith, union, all, rest.1, bit_and-halves y m),
    )

union-below : (n x y : ℕ) → x ≤ n → y ≤ n → bit_or x y ≡ 0 → (x ≡ 0) × (y ≡ 0)
union-below zero x y hx hy h = (omega arith, omega arith)
union-below (suc n) x y hx hy h =
    let halves = bit_or-halves x y in
    let rest = union-below n (x / 2) (y / 2) (omega arith) (omega arith) (omega (arith, halves)) in
    (omega (arith, rest.0, halves), omega (arith, rest.1, halves))

pub masked-union : (x y m : ℕ) → bit_and (bit_or x y) m ≡ 0 → (bit_and x m ≡ 0) × (bit_and y m ≡ 0)
masked-union x y m = masked-below (max x y) x y m (omega arith) (omega arith)

pub union_zero : (x y : ℕ) → bit_or x y ≡ 0 → (x ≡ 0) × (y ≡ 0)
union_zero x y = union-below (max x y) x y (omega arith) (omega arith)
