-- ===== src/WritePin.antt =====
-- src/write_pin.h: the access PIN made of entropy, and its recognition.
use teg.Prelude.{
  ℕ, ◌+◌, ◌-◌, ◌%◌, ◌≡◌, refl, ap, ◌≤◌, Bool, true, false, ◌||◌, Option, none, some, List, [], ◌∷◌,
  ltb, ◌==◌, if◌then◌else◌, length, get_or, take, arith,
}
use teg.Prelude.Range.{all_below, all_below-apply}

-- "0123456789ABCDEFGHJKMNPQRSTVWXYZ"
abbrev pub write_pin_alphabet : List ℕ
write_pin_alphabet =
    b'0' ∷ b'1' ∷ b'2' ∷ b'3' ∷ b'4' ∷ b'5' ∷ b'6' ∷ b'7' ∷ b'8' ∷ b'9' ∷ b'A' ∷ b'B' ∷ b'C' ∷ b'D'
    ∷ b'E' ∷ b'F' ∷ b'G' ∷ b'H' ∷ b'J' ∷ b'K' ∷ b'M' ∷ b'N' ∷ b'P' ∷ b'Q' ∷ b'R' ∷ b'S' ∷ b'T'
    ∷ b'V' ∷ b'W' ∷ b'X' ∷ b'Y' ∷ b'Z' ∷ []

abbrev pub write_pin_length : ℕ
write_pin_length = 8

abbrev symbol : ℕ → ℕ
symbol byte = get_or write_pin_alphabet (byte % 32) 0

abbrev pub symbols : List ℕ → List ℕ
symbols [] = []
symbols (byte ∷ bytes) = symbol byte ∷ symbols bytes

-- What is written before the NUL, or `none` where nothing is.
unfoldable pub write_pin_from_entropy : List ℕ → ℕ → Option (List ℕ)
write_pin_from_entropy entropy out_size =
    let n = if ltb write_pin_length (out_size - 1) then write_pin_length else out_size - 1 in
    if out_size == 0 then none else some (symbols (take n entropy))

-- The search loop over the alphabet.
unfoldable pub is_symbol : ℕ → List ℕ → Bool
is_symbol c [] = false
is_symbol c (a ∷ rest) = c == a || is_symbol c rest

-- The loop over the PIN, with `n` characters seen.
unfoldable pub looks_generated_from : ℕ → List ℕ → Bool
looks_generated_from n [] = n == write_pin_length
looks_generated_from n (c ∷ rest) =
    let later = looks_generated_from (n + 1) rest in
    if is_symbol c write_pin_alphabet
    then (if ltb write_pin_length (n + 1) then false else later)
    else false

unfoldable pub write_pin_looks_generated : Option (List ℕ) → Bool
write_pin_looks_generated none = false
write_pin_looks_generated (some pin) = looks_generated_from 0 pin

every_symbol :
    all_below 32 (λ i. is_symbol (get_or write_pin_alphabet i 0) write_pin_alphabet) ≡ true
unfolding all_below is_symbol
every_symbol = refl

symbol-is_symbol : (byte : ℕ) → is_symbol (symbol byte) write_pin_alphabet ≡ true
symbol-is_symbol byte =
    all_below-apply 32 (λ i. is_symbol (get_or write_pin_alphabet i 0) write_pin_alphabet)
      (byte % 32) every_symbol (omega arith)

symbols-generated :
    (n : ℕ) (bytes : List ℕ) → n + length bytes ≡ 8 → looks_generated_from n (symbols bytes) ≡ true
unfolding looks_generated_from
symbols-generated n [] e = ground (arith, e)
symbols-generated n (byte ∷ bytes) e =
    let room : ltb 8 (n + 1) ≡ false = ground (arith, e) in
    rw (symbol-is_symbol byte, room) (symbols-generated (n + 1) bytes (omega (arith, e)))

length-take_eight : (bytes : List ℕ) → length bytes ≡ 8 → take 8 bytes ≡ bytes
length-take_eight bytes e = rw e at (take_all bytes)
  where
    take_all : (xs : List ℕ) → take (length xs) xs ≡ xs
    take_all [] = refl
    take_all (x ∷ xs) = ap (λ t. x ∷ t) (take_all xs)

-- A PIN that is made of eight bytes of entropy, in a buffer of nine bytes or more, is written and is
-- recognised as one that the device made.
pub from_entropy-generated :
    (entropy : List ℕ) (out_size : ℕ)
    → length entropy ≡ 8
    → 9 ≤ out_size
    → write_pin_looks_generated (write_pin_from_entropy entropy out_size) ≡ true
unfolding write_pin_looks_generated write_pin_from_entropy
from_entropy-generated entropy out_size e room =
    let some_room : (out_size == 0) ≡ false = ground arith in
    let n : (if ltb write_pin_length (out_size - 1) then write_pin_length else out_size - 1) ≡ 8 =
      ground arith in
    rw (some_room, n, length-take_eight entropy e) (symbols-generated 0 entropy (omega (arith, e)))
