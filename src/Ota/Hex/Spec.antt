-- ===== src/Ota/Hex/Spec.antt =====
-- The Intel HEX record format, as a printer: `:LLAAAATT[DD...]CC`.
use teg.Prelude.{ℕ, ◌+◌, ◌-◌, ◌/◌, ◌%◌, List, [], ◌∷◌, ◌++◌, ltb, if◌then◌else◌, length}

unfoldable pub hex_digit : ℕ → ℕ
hex_digit n = if ltb n 10 then 48 + n else 55 + n

unfoldable pub hex_text : List ℕ → List ℕ
hex_text [] = []
hex_text (b ∷ bs) = hex_digit (b / 16) ∷ hex_digit (b % 16) ∷ hex_text bs

unfoldable pub total : List ℕ → ℕ
total [] = 0
total (b ∷ bs) = b + total bs

-- The bytes from LL through the last DD.
unfoldable pub record_body : ℕ → ℕ → List ℕ → List ℕ
record_body offset kind payload = length payload ∷ (offset / 256) ∷ (offset % 256) ∷ kind ∷ payload

-- The two's complement of their sum.
unfoldable pub checksum : List ℕ → ℕ
checksum body = (256 - total body % 256) % 256

unfoldable pub record_bytes : ℕ → ℕ → List ℕ → List ℕ
unfolding record_body checksum
record_bytes offset kind payload =
    let body = record_body offset kind payload in body ++ checksum body ∷ []

unfoldable pub record_text : ℕ → ℕ → List ℕ → List ℕ
record_text offset kind payload = b':' ∷ hex_text (record_bytes offset kind payload)
