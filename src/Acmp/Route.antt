-- ===== src/Acmp/Route.antt =====
-- src/acmp_math.h, `acmpRouteForPin`: the pins that reach a comparator.
use teg.Prelude.{ℕ, ◌<◌, ◌&&◌, Bool, true, ◌≡◌, ◌≢◌, ◌∙◌, refl, ◌==◌, not, arith}
use teg.Prelude.Range.{all_below, all_below-apply}
use teg.Acmp.{acmp_route_for_pin}

-- The units and channels of two pins below 42, compared.
clash : ℕ → ℕ → Bool
clash p q =
    let a = acmp_route_for_pin p in
    let b = acmp_route_for_pin q in
    not (a.cmp == 0) && (a.cmp == b.cmp && (a.psel == b.psel && not (p == q)))

no_clash : all_below 42 (λ p. all_below 42 (λ q. not (clash p q))) ≡ true
unfolding clash all_below acmp_route_for_pin
no_clash = refl

header_pins : (pin : ℕ) → (acmp_route_for_pin pin).cmp ≢ 0 → pin < 42
unfolding acmp_route_for_pin
header_pins pin h = ground arith

unequal :
    (p q : ℕ)
    → not (clash p q) ≡ true
    → (acmp_route_for_pin p).cmp ≢ 0
    → (acmp_route_for_pin p).cmp ≡ (acmp_route_for_pin q).cmp
    → (acmp_route_for_pin p).psel ≡ (acmp_route_for_pin q).psel
    → p ≡ q
unfolding clash
unequal p q h live c s = ground arith

-- Two pins that reach a comparator reach it on different inputs: one unit and channel belong to
-- one pin.
pub route-injective :
    (p q : ℕ)
    → (acmp_route_for_pin p).cmp ≢ 0
    → (acmp_route_for_pin p).cmp ≡ (acmp_route_for_pin q).cmp
    → (acmp_route_for_pin p).psel ≡ (acmp_route_for_pin q).psel
    → p ≡ q
route-injective p q live c s =
    let row =
      all_below-apply 42 (λ p. all_below 42 (λ q. not (clash p q))) p no_clash
        (header_pins p live) in
    let cell =
      all_below-apply 42 (λ q. not (clash p q)) q row (header_pins q (λ e. live (c ∙ e))) in
    unequal p q cell live c s
