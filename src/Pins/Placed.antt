-- ===== src/Pins/Placed.antt =====
-- src/pin_ownership.h: the claims of a configuration.
use teg.Prelude.{
  ℕ, ◌≤◌, ◌≡◌, ◌⊎◌, inl, inr, Bool, true, false, List, [], ◌∷◌, get_or, set, bit_or, All, arith,
}
use teg.Pins.{
  Claims, claimed, conflict, Request, PinConfig, claim, claim_from, requests,
  validate_pin_ownership, teensy41_analog_pin,
}

-- A claim of a header pin, for an analog function of a pin that has one.
abbrev pub IsPlaced : Request → Type 0
IsPlaced r = (r.pin ≤ 41) × ((r.analog ≡ false) ⊎ (teensy41_analog_pin r.pin ≡ true))

claim_cases :
    (claims : List ℕ) (pin role : ℕ) (analog : Bool)
    → ((existing : ℕ) × (claim claims pin role analog ≡ conflict pin existing role))
      ⊎ ((pin ≤ 41)
          × ((analog ≡ false) ⊎ (teensy41_analog_pin pin ≡ true))
          × (claim claims pin role analog
              ≡ claimed (set claims pin (bit_or (get_or claims pin 0) role))))
unfolding claim
claim_cases claims pin role analog = ground arith

refused :
    (r : Request) (existing : ℕ) (rs : List Request) (claims : List ℕ)
    → claim_from (conflict r.pin existing r.role) rs ≡ claimed claims
    → All IsPlaced (r ∷ rs)
unfolding claim_from
refused r existing rs claims h = absurd (cc)

claim_from-IsPlaced :
    (start : Claims) (rs : List Request) (claims : List ℕ)
    → claim_from start rs ≡ claimed claims
    → All IsPlaced rs
unfolding claim_from
claim_from-IsPlaced (conflict pin existing requested) rs claims h = absurd (cc)
claim_from-IsPlaced (claimed held) [] claims h = tt
claim_from-IsPlaced (claimed held) (r ∷ rs) claims h =
    let opened : claim_from (claim held r.pin r.role r.analog) rs ≡ claimed claims = h in
    let rest = claim_from-IsPlaced (claim held r.pin r.role r.analog) rs claims h in
    elim (claim_cases held r.pin r.role r.analog) [
      | inl (existing, e) ↦ refused r existing rs claims (rw e at opened)
      | inr (low, place, e) ↦ ((low, place), rest)
    ]

-- A configuration is accepted only if every pin that an enabled function claims is one of the 42
-- header pins, and every pin that is claimed for an analog function is an analog pin.
pub validate-IsPlaced :
    (cfg : PinConfig) (claims : List ℕ)
    → validate_pin_ownership cfg ≡ claimed claims
    → All IsPlaced (requests cfg)
unfolding validate_pin_ownership
validate-IsPlaced cfg claims h = claim_from-IsPlaced _ (requests cfg) claims h
