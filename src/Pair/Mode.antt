-- ===== src/Pair/Mode.antt =====
-- src/pwm_pair.h: the mode that a submodule runs, from the mode that is asked for.
use teg.Prelude.{ℕ, Bool, false, ◌≡◌, ◌≢◌, ◌⊎◌, inl, inr, refl, arith}
use teg.Pair.PairMode.{independent, half_bridge, differential}
use teg.Pair.Submodule.{sm21, sm40, sm41, sm42}
use teg.Pair.{
  pair_allows_complementary, pair_has_channel_b, pair_is_complementary, pair_mode_sanitised,
  pair_mode_sanitised_for_scheme,
}

-- A submodule whose channel B has a pin of its own that may follow channel A.
abbrev pub HasPair : ℕ → Type 0
HasPair submodule =
    (submodule ≢ sm21) × (submodule ≢ sm40) × (submodule ≢ sm41) × (submodule ≢ sm42)

-- The requests that can be granted.
pub data Grant (submodule : ℕ) (inverts : Bool) : ℕ → Type 0 where
  apart : Grant submodule inverts independent
  bridge : HasPair submodule → inverts ≡ false → Grant submodule inverts half_bridge
  command : HasPair submodule → inverts ≡ false → Grant submodule inverts differential

module _ (requested submodule : ℕ) (inverts : Bool) where
  abbrev runs : ℕ
  runs = pair_mode_sanitised_for_scheme requested submodule inverts

  abbrev IsLeg : Type 0
  IsLeg = HasPair submodule × (inverts ≡ false)

  runs_cases : (runs ≡ 0) ⊎ ((runs ≡ requested) × ((requested ≡ 1) ⊎ (requested ≡ 2)) × IsLeg)
  unfolding pair_mode_sanitised_for_scheme pair_mode_sanitised pair_is_complementary
      pair_allows_complementary pair_has_channel_b
  runs_cases = ground arith

  runs_leg : IsLeg → (requested ≡ 1) ⊎ (requested ≡ 2) → runs ≡ requested
  unfolding pair_mode_sanitised_for_scheme pair_mode_sanitised pair_is_complementary
      pair_allows_complementary pair_has_channel_b
  runs_leg leg mode = ground arith

-- The submodule runs a mode that can be granted to it.
pub sanitised-Grant :
    (requested submodule : ℕ) (inverts : Bool)
    → Grant submodule inverts (pair_mode_sanitised_for_scheme requested submodule inverts)
sanitised-Grant requested submodule inverts = elim (runs_cases requested submodule inverts) [
  | inl e ↦ rw e apart
  | inr (e, inl one, (p, i)) ↦ rw (e, one) (bridge p i)
  | inr (e, inr two, (p, i)) ↦ rw (e, two) (command p i)
]

-- A request that can be granted is run as it was asked for.
pub granted-sanitised :
    (requested submodule : ℕ) (inverts : Bool)
    → Grant submodule inverts requested
    → pair_mode_sanitised_for_scheme requested submodule inverts ≡ requested
unfolding pair_mode_sanitised_for_scheme pair_mode_sanitised pair_is_complementary
granted-sanitised requested submodule inverts apart = ground arith
granted-sanitised requested submodule inverts (bridge p i) =
    runs_leg half_bridge submodule inverts (p, i) (inl refl)
granted-sanitised requested submodule inverts (command p i) =
    runs_leg differential submodule inverts (p, i) (inr refl)
