-- ===== src/Pins/Exclusive.antt =====
-- src/pin_ownership.h: the pins that two functions claim.
use teg.Prelude.{
  ℕ, ◌-◌, ◌≤◌, ◌<◌, ◌≡◌, ◌≢◌, ◌⊎◌, inl, inr, refl, sym, ap, ◌∙◌, Bool, true, false, List, [], ◌∷◌,
  ◌++◌, get_or, set, replicate, bit_and, bit_or, All, All-append, arith, length, length-set,
  get_or-set_self, get_or-set_ne, Bool-cases, ◌==◌, not, ==_iff, if◌then◌else◌, ◌||◌,
}
use teg.Prelude.Masks.{masked-union, union_zero}
use teg.Pins.{
  Claims, claimed, conflict, Request, PinConfig, pin_roles_compatible, claim, claim_from, requests,
  digital, when, request, power_mon_requests, pwm_pins, pin_role_pwm, pin_role_trigger,
  pin_role_wire, pin_role_wire2, pin_role_feedback_adc, pin_role_meter_current,
  pin_role_current_limit, pin_role_gpio_fault, pin_role_one_wire, pin_role_power_monitor,
  pin_role_imon_adc, validate_pin_ownership,
}

-- A role of the current sensor: the converter and the comparator share its pin.
abbrev pub IsSense : Request → Type 0
IsSense r = bit_and r.role (65535 - 96) ≡ 0

-- Of two claims of one pin, both are the current sensor's.
abbrev pub IsExclusive : List Request → Type 0
IsExclusive [] = Unit
IsExclusive (r ∷ rs) = All (λ q. q.pin ≡ r.pin → IsSense r × IsSense q) rs × IsExclusive rs

-- The claims cover a request: its pin is taken, and free for the current sensor only if it is one.
abbrev Covers : List ℕ → Request → Type 0
Covers claims r =
    (0 < get_or claims r.pin 0) × (bit_and (get_or claims r.pin 0) (65535 - 96) ≡ 0 → IsSense r)

record IsClaimed (held after : List ℕ) (r : Request) : Type 0 where
  low : r.pin ≤ 41
  shared : 0 < get_or held r.pin 0 → bit_and (bit_or (get_or held r.pin 0) r.role) (65535 - 96) ≡ 0
  same : after ≡ set held r.pin (bit_or (get_or held r.pin 0) r.role)

claim-IsClaimed :
    (held after : List ℕ) (r : Request)
    → claim held r.pin r.role r.analog ≡ claimed after
    → IsClaimed held after r
unfolding claim pin_roles_compatible
claim-IsClaimed held after r h = record {
  low = ground arith;
  shared = λ taken. ground arith;
  same = ground arith;
}

module _ (held after : List ℕ) (r : Request) (size : length held ≡ 42)
    (c : IsClaimed held after r) where
  at_pin : get_or after r.pin 0 ≡ bit_or (get_or held r.pin 0) r.role
  at_pin =
      rw c.same
        (get_or-set_self held r.pin (bit_or (get_or held r.pin 0) r.role) 0 (omega (arith, c.low)))

  elsewhere : (p : ℕ) → r.pin ≢ p → get_or after p 0 ≡ get_or held p 0
  elsewhere p h = rw c.same (get_or-set_ne held r.pin p (bit_or (get_or held r.pin 0) r.role) 0 h)

  Covers-new : 0 < r.role → Covers after r
  Covers-new h = rw at_pin (
    (ground (arith, union_zero (get_or held r.pin 0) r.role)),
    λ e. (masked-union (get_or held r.pin 0) r.role (65535 - 96) e).1,
  )

  Covers-old : (q : Request) → Covers held q → Covers after q
  Covers-old q k = elim (Bool-cases (r.pin == q.pin)) [
    | inl e ↦
        let p = (==_iff r.pin q.pin).0 e in
        let there : get_or after q.pin 0 ≡ bit_or (get_or held q.pin 0) r.role =
          sym (ap (λ n. get_or after n 0) p)
          ∙ at_pin
          ∙ ap (λ n. bit_or (get_or held n 0) r.role) p in
        rw there (
          ground (arith, k.0, union_zero (get_or held q.pin 0) r.role),
          λ z. k.1 (masked-union (get_or held q.pin 0) r.role (65535 - 96) z).0,
        )
    | inr e ↦ rw (elsewhere q.pin (λ p. ground arith)) k
  ]

  -- An earlier request of the same pin is the current sensor's, and so is the new one.
  shares : (q : Request) → Covers held q → r.pin ≡ q.pin → IsSense q × IsSense r
  shares q k p =
      let there = ap (λ n. get_or held n 0) p in
      let taken : 0 < get_or held r.pin 0 = rw there k.0 in
      let m = masked-union (get_or held r.pin 0) r.role (65535 - 96) (c.shared taken) in
      (k.1 (ap (λ n. bit_and n (65535 - 96)) (sym there) ∙ m.0), m.1)

-- What the claims cover excludes the requests that follow.
abbrev Excludes : List ℕ → List Request → Type 0
Excludes held rs =
    (q : Request) → Covers held q → All (λ r. r.pin ≡ q.pin → IsSense q × IsSense r) rs

Claims-cases :
    (c : Claims)
    → ((pin : ℕ) × (existing : ℕ) × (requested : ℕ) × (c ≡ conflict pin existing requested))
      ⊎ ((after : List ℕ) × (c ≡ claimed after))
Claims-cases (claimed after) = inr (after, refl)
Claims-cases (conflict pin existing requested) = inl (pin, existing, requested, refl)

conflict_left :
    {A : Type 0} (pin existing requested : ℕ) (rs : List Request) (claims : List ℕ)
    → claim_from (conflict pin existing requested) rs ≡ claimed claims
    → A
unfolding claim_from
conflict_left pin existing requested rs claims h = absurd (cc)

claim_from-IsExclusive :
    (held : List ℕ) (rs : List Request) (claims : List ℕ)
    → length held ≡ 42
    → All (λ r. 0 < r.role) rs
    → claim_from (claimed held) rs ≡ claimed claims
    → IsExclusive rs × Excludes held rs
unfolding claim_from
claim_from-IsExclusive held [] claims size roles h = (tt, λ q k. tt)
claim_from-IsExclusive held (r ∷ rs) claims size roles h =
    let opened : claim_from (claim held r.pin r.role r.analog) rs ≡ claimed claims = h in
    elim (Claims-cases (claim held r.pin r.role r.analog)) [
      | inl (pin, existing, requested, e) ↦
          conflict_left pin existing requested rs claims (rw e at opened)
      | inr (after, e) ↦
          let c = claim-IsClaimed held after r e in
          let grown : length after ≡ 42 = rw c.same (length-set held r.pin _ ∙ size) in
          let rest = claim_from-IsExclusive after rs claims grown roles.1 (rw e at opened) in
          (
            (rest.1 r (Covers-new held after r size c roles.0), rest.0),
            λ q k. (shares held after r size c q k, rest.1 q (Covers-old held after r size c q k)),
          )
    ]

abbrev IsRole : Request → Type 0
IsRole r = 0 < r.role

record HasRoles (rs : List Request) : Type 0 where
  each : All IsRole rs

digital-HasRoles : (role : ℕ) (pins : List ℕ) → 0 < role → HasRoles (digital role pins)
digital-HasRoles role [] h = record { each = tt }
digital-HasRoles role (pin ∷ pins) h = record { each = (h, (digital-HasRoles role pins h).each) }

when-HasRoles :
    (enabled : Bool) (pin role : ℕ) (analog : Bool)
    → 0 < role
    → HasRoles (when enabled pin role analog)
when-HasRoles true pin role analog h = record { each = (h, tt) }
when-HasRoles false pin role analog h = record { each = tt }

infixl 5 ◌and_then◌
◌and_then◌ : {xs ys : List Request} → HasRoles xs → HasRoles ys → HasRoles (xs ++ ys)
h and_then k = record { each = All-append IsRole _ _ h.each k.each }

power_mon-HasRoles : (cfg : PinConfig) → HasRoles (power_mon_requests cfg)
power_mon-HasRoles cfg =
    digital-HasRoles pin_role_wire2 (24 ∷ 25 ∷ []) (omega arith)
    and_then monitor cfg.pg_efuse_pin
    and_then monitor cfg.pg_buck_pin
    and_then monitor cfg.alert_pin
    and_then when-HasRoles (not (cfg.imon_pin == 255)) cfg.imon_pin pin_role_imon_adc true
        (omega arith)
  where
    monitor : (pin : ℕ) → HasRoles (when (not (pin == 255)) pin pin_role_power_monitor false)
    monitor pin = when-HasRoles (not (pin == 255)) pin pin_role_power_monitor false (omega arith)

maybe-HasRoles :
    (enabled : Bool) (rs : List Request) → HasRoles rs → HasRoles (if enabled then rs else [])
maybe-HasRoles true rs h = h
maybe-HasRoles false rs h = record { each = tt }

fixed-HasRoles : HasRoles (request 13 pin_role_trigger false ∷ digital pin_role_wire (18 ∷ 19 ∷ []))
fixed-HasRoles = record {
  each = (omega arith, (digital-HasRoles pin_role_wire (18 ∷ 19 ∷ []) (omega arith)).each);
}

requests-HasRoles : (cfg : PinConfig) → HasRoles (requests cfg)
unfolding requests
requests-HasRoles cfg =
    digital-HasRoles pin_role_pwm pwm_pins (omega arith)
    and_then fixed-HasRoles
    and_then when-HasRoles (cfg.feedback.enabled || cfg.capture_enabled || cfg.pll_enabled)
        cfg.feedback.pin pin_role_feedback_adc true (omega arith)
    and_then when-HasRoles cfg.meter.enabled cfg.meter.pin pin_role_meter_current true (omega arith)
    and_then when-HasRoles cfg.current_limit.enabled cfg.current_limit.pin pin_role_current_limit
        true (omega arith)
    and_then when-HasRoles cfg.fault_protection.enabled cfg.fault_protection.pin pin_role_gpio_fault
        false (omega arith)
    and_then when-HasRoles cfg.thermal.enabled cfg.thermal.pin pin_role_one_wire false (omega arith)
    and_then maybe-HasRoles cfg.power_mon_enabled (power_mon_requests cfg) (power_mon-HasRoles cfg)

-- A configuration is accepted only if no header pin is claimed for two functions, but for the pin of
-- the current sensor, which the converter and the comparator share.
pub validate-IsExclusive :
    (cfg : PinConfig) (claims : List ℕ)
    → validate_pin_ownership cfg ≡ claimed claims
    → IsExclusive (requests cfg)
unfolding validate_pin_ownership
validate-IsExclusive cfg claims h =
    (claim_from-IsExclusive (replicate 42 0) (requests cfg) claims refl (requests-HasRoles cfg).each
      h).0
