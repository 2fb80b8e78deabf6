-- ===== src/Prelude/Bits.antt =====
-- Laws of `|` at variables: the library computes it at numerals only, so they go down the binary
-- digits that it stands for.
use Prim.Native.Nat.{
  ℕ, zero, suc, ◌+◌, ◌*◌, ◌/◌, ◌%◌, ◌^◌, ◌≤◌, ◌<◌, max, bit_or, digits, bit_or-bitwise,
}
use teg.Prelude.Tests.{if◌then◌else◌, ◌==◌}
use mathlib.Core.Path.{◌≡◌, refl, ap, sym, ◌∙◌}
use native.Mathlib.Omega.{arith}
use native.Mathlib.Nat.{pow-suc, mul_comm, div-div-eq-div-mul}

module _ (rest : ℕ → ℕ) (digit : ℕ → ℕ → ℕ) where
  abbrev pub go : ℕ → ℕ → ℕ → ℕ
  go = digits rest digit

  -- Any two amounts of fuel that cover the first number give the same result.
  pub go_fuel : (a b k l : ℕ) → a ≤ k → a ≤ l → go k a b ≡ go l a b
  go_fuel zero b zero zero hk hl = refl
  go_fuel zero b zero (suc l) hk hl = refl
  go_fuel zero b (suc k) zero hk hl = refl
  go_fuel zero b (suc k) (suc l) hk hl = refl
  go_fuel (suc a) b zero l hk hl = absurd (omega arith)
  go_fuel (suc a) b (suc k) zero hk hl = absurd (omega arith)
  go_fuel (suc a) b (suc k) (suc l) hk hl =
      ap (λ t. t * 2 + digit (suc a % 2) (b % 2))
        (go_fuel (suc a / 2) (b / 2) k l (omega arith) (omega arith))

pub bit_or-halves : (a b : ℕ) → bit_or a b ≡ bit_or (a / 2) (b / 2) * 2 + max (a % 2) (b % 2)
bit_or-halves zero b = omega (arith, bit_or-bitwise 0 b, bit_or-bitwise 0 (b / 2))
bit_or-halves (suc a) b = omega (
  arith,
  bit_or-bitwise (suc a) b,
  bit_or-bitwise (suc a / 2) (b / 2),
  go_fuel (λ y. y) max (suc a / 2) (b / 2) a (suc a / 2) (omega arith) (omega arith),
)

pub bit_or-zero : (n a : ℕ) → a ≤ n → bit_or a 0 ≡ a
bit_or-zero n zero h = refl
bit_or-zero zero (suc a) h = absurd (omega arith)
bit_or-zero (suc n) (suc a) h =
    omega (arith, bit_or-halves (suc a) 0, bit_or-zero n (suc a / 2) (omega arith))

two_pow_suc : (q k : ℕ) → q * 2 ^ suc k ≡ 2 * (q * 2 ^ k)
two_pow_suc q k = omega (arith, ap (λ (t : ℕ). q * t) (pow-suc 2 k))

-- `(hi << k) | lo` is a sum where `lo` fits `k` bits.
pub bit_or-shift : (k hi lo : ℕ) → lo < 2 ^ k → bit_or (hi * 2 ^ k) lo ≡ hi * 2 ^ k + lo
bit_or-shift zero hi lo h = ground (arith, bit_or-zero hi hi)
bit_or-shift (suc k) hi lo h = ground (
  arith,
  bit_or-halves (hi * 2 ^ suc k) lo,
  two_pow_suc hi k,
  pow-suc 2 k,
  bit_or-shift k hi (lo / 2),
)

-- `lo | (hi << k)`
pub bit_or-shift_right : (k hi lo : ℕ) → lo < 2 ^ k → bit_or lo (hi * 2 ^ k) ≡ hi * 2 ^ k + lo
bit_or-shift_right zero hi zero h = omega (arith, bit_or-bitwise 0 (hi * 2 ^ 0))
bit_or-shift_right zero hi (suc lo) h = absurd (omega arith)
bit_or-shift_right (suc k) hi lo h = ground (
  arith,
  bit_or-halves lo (hi * 2 ^ suc k),
  two_pow_suc hi k,
  pow-suc 2 k,
  bit_or-shift_right k hi (lo / 2),
)

-- A 32-bit word from its bytes, the most significant first.
pub word_be :
    (a b c d : ℕ)
    → a < 256
    → b < 256
    → c < 256
    → d < 256
    → bit_or (bit_or (bit_or (a * 2 ^ 24) (b * 2 ^ 16)) (c * 2 ^ 8)) d
      ≡ a * 16777216 + b * 65536 + c * 256 + d
word_be a b c d ha hb hc hd = rw (bit_or-shift 24 a (b * 2 ^ 16) (omega arith)) (
    rw (← (let e : (a * 256 + b) * 2 ^ 16 ≡ a * 2 ^ 24 + b * 2 ^ 16 = omega arith in e)) (
      rw (bit_or-shift 16 (a * 256 + b) (c * 2 ^ 8) (omega arith)) (
        rw
          (← (
            let e : ((a * 256 + b) * 256 + c) * 2 ^ 8 ≡ (a * 256 + b) * 2 ^ 16 + c * 2 ^ 8 =
              omega arith in
            e))
          (bit_or-shift 8 ((a * 256 + b) * 256 + c) d hd ∙ omega arith))))

-- The same, the least significant first.
pub word_le :
    (a b c d : ℕ)
    → a < 256
    → b < 256
    → c < 256
    → d < 256
    → bit_or (bit_or (bit_or a (b * 2 ^ 8)) (c * 2 ^ 16)) (d * 2 ^ 24)
      ≡ a + b * 256 + c * 65536 + d * 16777216
word_le a b c d ha hb hc hd = rw (bit_or-shift_right 8 b a ha) (
    rw (bit_or-shift_right 16 c (b * 2 ^ 8 + a) (omega arith))
      (bit_or-shift_right 24 d (c * 2 ^ 16 + (b * 2 ^ 8 + a)) (omega arith) ∙ omega arith))

-- Bit k of a number.
pub bit : ℕ → ℕ → ℕ
bit n zero = n % 2
bit n (suc k) = bit (n / 2) k

bit_lt : (n k : ℕ) → bit n k < 2
unfolding bit
bit_lt n zero = omega arith
bit_lt n (suc k) = bit_lt (n / 2) k

pub bit-or : (a b k : ℕ) → bit (bit_or a b) k ≡ max (bit a k) (bit b k)
unfolding bit
bit-or a b zero = omega (arith, bit_or-halves a b)
bit-or a b (suc k) =
    rw (← bit-or (a / 2) (b / 2) k) (ap (λ t. bit t k) (omega (arith, bit_or-halves a b)))

zero-bit : (k : ℕ) → bit 0 k ≡ 0
unfolding bit
zero-bit zero = refl
zero-bit (suc k) = zero-bit k

pub bit-pow : (j k : ℕ) → bit (2 ^ j) k ≡ (if j == k then 1 else 0)
unfolding bit
bit-pow zero zero = refl
bit-pow zero (suc k) = ground (arith, zero-bit k)
bit-pow (suc j) zero = ground (arith, pow-suc 2 j)
bit-pow (suc j) (suc k) =
    let half : 2 ^ suc j / 2 ≡ 2 ^ j = omega (arith, pow-suc 2 j) in
    rw half (bit-pow j k ∙ ground arith)

-- `(n >> k) & 1`
pub bit_lem : (n k : ℕ) → n / 2 ^ k % 2 ≡ bit n k
unfolding bit
bit_lem n zero = omega arith
bit_lem n (suc k) =
    ap (λ t. t % 2)
      (ap (λ t. n / t) (pow-suc 2 k ∙ mul_comm (2 ^ k) 2) ∙ sym (div-div-eq-div-mul n 2 (2 ^ k)))
    ∙ bit_lem (n / 2) k

-- `(n | (1 << j)) >> k & 1`
pub bit_or-pow : (n j k : ℕ) → bit_or n (2 ^ j) / 2 ^ k % 2 ≡ (if j == k then 1 else n / 2 ^ k % 2)
bit_or-pow n j k =
    rw (bit_lem (bit_or n (2 ^ j)) k, bit_lem n k, bit-or n (2 ^ j) k, bit-pow j k)
      (ground (arith, bit_lt n k))
