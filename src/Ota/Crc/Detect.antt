-- ===== src/Ota/Crc/Detect.antt =====
-- src/ota_crc.h: the width of the register, chunks, and damaged bytes.
use teg.Prelude.{
  ℕ, zero, suc, ◌/◌, ◌%◌, ◌^◌, ◌≤◌, ◌≡◌, refl, ap, sym, ◌∙◌, ◌⊎◌, inl, inr, List, [], ◌∷◌, ◌++◌,
  All, bit_xor, arith,
}
use teg.Prelude.Words.{IsU8, IsU32}
use teg.Ota.Crc.{crc_bit, crc_bits, crc32_update, crc32}
use teg.Ota.Crc.Xor.{
  bit_xor_cancel, bit_xor_comm, bit_xor-zero, bit_xor-lt, bit_xor-top, bit_and-one,
}

abbrev poly : ℕ
poly = 0xEDB88320

crc_bit_even : (c : ℕ) → c % 2 ≡ 0 → crc_bit c ≡ c / 2
unfolding crc_bit
crc_bit_even c h = rw (bit_and-one c, h) (bit_xor-zero (c / 2))

crc_bit_odd : (c : ℕ) → c % 2 ≡ 1 → crc_bit c ≡ bit_xor (c / 2) poly
unfolding crc_bit
crc_bit_odd c h = rw (bit_and-one c, h)

crc_bit_odd_top : (c : ℕ) → IsU32 c → c % 2 ≡ 1 → 2 ^ 31 ≤ crc_bit c
crc_bit_odd_top c hc h =
    omega (arith, crc_bit_odd c h, bit_xor-top 31 (c / 2) 0x6DB88320 (omega arith) (omega arith))

parity : (c : ℕ) → (c % 2 ≡ 0) ⊎ (c % 2 ≡ 1)
parity c = omega arith

crc_bit-IsU32 : (c : ℕ) → IsU32 c → IsU32 (crc_bit c)
crc_bit-IsU32 c hc = elim (parity c) [
  | inl e ↦ omega (arith, crc_bit_even c e)
  | inr o ↦ omega (arith, crc_bit_odd c o, bit_xor-lt 32 (c / 2) poly (omega arith) (omega arith))
]

same_xor : (a b c : ℕ) → bit_xor a c ≡ bit_xor b c → a ≡ b
same_xor a b c e = sym (bit_xor_cancel a c) ∙ ap (λ t. bit_xor t c) e ∙ bit_xor_cancel b c

crc_bit-injective : (c d : ℕ) → IsU32 c → IsU32 d → crc_bit c ≡ crc_bit d → c ≡ d
crc_bit-injective c d hc hd e = elim (parity c) [
  | inl ce ↦ elim (parity d) [
    | inl de ↦ omega (arith, crc_bit_even c ce, crc_bit_even d de)
    | inr do' ↦ absurd (omega (arith, crc_bit_even c ce, crc_bit_odd_top d hd do'))
  ]
  | inr co ↦ elim (parity d) [
    | inl de ↦ absurd (omega (arith, crc_bit_even d de, crc_bit_odd_top c hc co))
    | inr do' ↦
        omega
          (arith, same_xor (c / 2) (d / 2) poly (sym (crc_bit_odd c co) ∙ e ∙ crc_bit_odd d do'))
  ]
]

crc_bits-IsU32 : (n c : ℕ) → IsU32 c → IsU32 (crc_bits n c)
unfolding crc_bits
crc_bits-IsU32 zero c h = h
crc_bits-IsU32 (suc n) c h = crc_bits-IsU32 n (crc_bit c) (crc_bit-IsU32 c h)

crc_bits-injective : (n c d : ℕ) → IsU32 c → IsU32 d → crc_bits n c ≡ crc_bits n d → c ≡ d
unfolding crc_bits
crc_bits-injective zero c d hc hd e = e
crc_bits-injective (suc n) c d hc hd e =
    crc_bit-injective c d hc hd
      (crc_bits-injective n (crc_bit c) (crc_bit d) (crc_bit-IsU32 c hc) (crc_bit-IsU32 d hd) e)

mix-IsU32 : (c b : ℕ) → IsU32 c → IsU8 b → IsU32 (bit_xor c b)
mix-IsU32 c b hc hb = bit_xor-lt 32 c b hc (omega arith)

pub crc32_update-IsU32 : (c : ℕ) (bs : List ℕ) → IsU32 c → All IsU8 bs → IsU32 (crc32_update c bs)
unfolding crc32_update
crc32_update-IsU32 c [] hc hb = hc
crc32_update-IsU32 c (b ∷ bs) hc hb =
    crc32_update-IsU32 (crc_bits 8 (bit_xor c b)) bs (crc_bits-IsU32 8 _ (mix-IsU32 c b hc hb.0))
      hb.1

-- Feeding a stream in pieces gives the register of the whole stream.
pub crc32_update-append :
    (c : ℕ) (xs ys : List ℕ) → crc32_update c (xs ++ ys) ≡ crc32_update (crc32_update c xs) ys
unfolding crc32_update
crc32_update-append c [] ys = refl
crc32_update-append c (x ∷ xs) ys = crc32_update-append (crc_bits 8 (bit_xor c x)) xs ys

crc32_update-injective :
    (c d : ℕ) (bs : List ℕ)
    → IsU32 c
    → IsU32 d
    → All IsU8 bs
    → crc32_update c bs ≡ crc32_update d bs
    → c ≡ d
unfolding crc32_update
crc32_update-injective c d [] hc hd hb e = e
crc32_update-injective c d (b ∷ bs) hc hd hb e = same_xor c d b (
    crc_bits-injective 8 (bit_xor c b) (bit_xor d b) (mix-IsU32 c b hc hb.0) (mix-IsU32 d b hd hb.0)
      (crc32_update-injective (crc_bits 8 (bit_xor c b)) (crc_bits 8 (bit_xor d b)) bs
        (crc_bits-IsU32 8 _ (mix-IsU32 c b hc hb.0)) (crc_bits-IsU32 8 _ (mix-IsU32 d b hd hb.0))
        hb.1 e))

-- Two byte streams that differ in one byte alone never have the same CRC.
pub crc32-detects :
    (xs ys : List ℕ) (a b : ℕ)
    → All IsU8 xs
    → All IsU8 ys
    → IsU8 a
    → IsU8 b
    → crc32 (xs ++ a ∷ ys) ≡ crc32 (xs ++ b ∷ ys)
    → a ≡ b
unfolding crc32
crc32-detects xs ys a b hx hy ha hb e = same_xor a b seed (
    bit_xor_comm a seed
    ∙ crc_bits-injective 8 (bit_xor seed a) (bit_xor seed b) (mix-IsU32 seed a hs ha)
        (mix-IsU32 seed b hs hb) middle
    ∙ bit_xor_comm seed b)
  where
    seed : ℕ
    seed = crc32_update 0xFFFFFFFF xs

    hs : IsU32 seed
    hs = crc32_update-IsU32 0xFFFFFFFF xs (omega arith) hx

    whole : crc32_update 0xFFFFFFFF (xs ++ a ∷ ys) ≡ crc32_update 0xFFFFFFFF (xs ++ b ∷ ys)
    whole = same_xor _ _ 0xFFFFFFFF e

    split : crc32_update seed (a ∷ ys) ≡ crc32_update seed (b ∷ ys)
    split =
        sym (crc32_update-append 0xFFFFFFFF xs (a ∷ ys))
        ∙ whole
        ∙ crc32_update-append 0xFFFFFFFF xs (b ∷ ys)

    middle : crc_bits 8 (bit_xor seed a) ≡ crc_bits 8 (bit_xor seed b)
    middle =
        crc32_update-injective _ _ ys (crc_bits-IsU32 8 _ (mix-IsU32 seed a hs ha))
          (crc_bits-IsU32 8 _ (mix-IsU32 seed b hs hb)) hy (unfold crc32_update in split)
