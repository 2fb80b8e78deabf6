-- ===== src/Modulation/Plan.antt =====
-- Output polarity and the complementary pairs.
use teg.Prelude.{
  ℕ, zero, suc, ◌+◌, ◌≤◌, ◌<◌, ◌≡◌, sym, ap, ◌∙◌, ◌≢◌, ◌↔◌, inl, inr, Bool, true, false, arith,
  ◌==◌, if◌then◌else◌, ==_iff, Bool-cases,
}
use teg.Pair.{pair_mode_sanitised_for_scheme, pair_is_complementary}
use teg.Modulation.{modulation_cell_plan, inverts_from, scheme_requires_polarity_inversion}

-- A cell whose output is inverted.
abbrev pub Inverted : ℕ → ℕ → ℕ → ℕ → Type 0
Inverted scheme disposition cells cell =
    (modulation_cell_plan scheme disposition cell cells).polarity_inverted ≡ true

one_round :
    (rounds first scheme disposition cells : ℕ) (b : Bool)
    → (modulation_cell_plan scheme disposition first cells).polarity_inverted ≡ b
    → (if b then true else inverts_from rounds (first + 1) scheme disposition cells)
      ≡ inverts_from (suc rounds) first scheme disposition cells
unfolding inverts_from
one_round rounds first scheme disposition cells b e =
    ap (λ (t : Bool). if t then true else inverts_from rounds (first + 1) scheme disposition cells)
      (sym e)

inverts_from-none :
    (rounds first scheme disposition cells cell : ℕ)
    → inverts_from rounds first scheme disposition cells ≡ false
    → first ≤ cell
    → cell < first + rounds
    → (modulation_cell_plan scheme disposition cell cells).polarity_inverted ≡ false
unfolding inverts_from
inverts_from-none zero first scheme disposition cells cell h low high = absurd (omega arith)
inverts_from-none (suc rounds) first scheme disposition cells cell h low high =
    let p = (modulation_cell_plan scheme disposition first cells).polarity_inverted in
    elim (Bool-cases p) [
      | inl e ↦ absurd (
          let no_go : true ≡ false = one_round rounds first scheme disposition cells true e ∙ h in
          cc)
      | inr e ↦ elim (Bool-cases (first == cell)) [
        | inl same ↦
            ap (λ (k : ℕ). (modulation_cell_plan scheme disposition k cells).polarity_inverted)
              (sym ((==_iff first cell).0 same))
            ∙ e
        | inr apart ↦
            inverts_from-none rounds (first + 1) scheme disposition cells cell
              (one_round rounds first scheme disposition cells false e ∙ h) (ground arith)
              (omega arith)
      ]
    ]

inverts_from-some :
    (rounds first scheme disposition cells : ℕ)
    → inverts_from rounds first scheme disposition cells ≡ true
    → (cell : ℕ) × (cell < first + rounds) × Inverted scheme disposition cells cell
unfolding inverts_from
inverts_from-some zero first scheme disposition cells h =
    absurd (let no_go : false ≡ true = h in cc)
inverts_from-some (suc rounds) first scheme disposition cells h =
    let p = (modulation_cell_plan scheme disposition first cells).polarity_inverted in
    elim (Bool-cases p) [
      | inl e ↦ (first, omega arith, e)
      | inr e ↦
          let found =
            inverts_from-some rounds (first + 1) scheme disposition cells
              (one_round rounds first scheme disposition cells false e ∙ h) in
          (found.0, omega (arith, found.1), found.2)
    ]

-- The scheme is refused to complementary pairs exactly where one of its cells is inverted.
pub requires_iff :
    (scheme disposition cells : ℕ)
    → (scheme_requires_polarity_inversion scheme disposition cells ≡ true)
      ↔ ((cell : ℕ) × (cell < cells) × Inverted scheme disposition cells cell)
unfolding scheme_requires_polarity_inversion
requires_iff scheme disposition cells = (
  λ h.
      let found = inverts_from-some cells 0 scheme disposition cells h in
      (found.0, omega (arith, found.1), found.2),
  λ found. elim (Bool-cases (inverts_from cells 0 scheme disposition cells)) [
    | inl e ↦ e
    | inr e ↦ absurd (
        let straight =
          inverts_from-none cells 0 scheme disposition cells found.0 e (omega arith)
            (omega (arith, found.1)) in
        let no_go : true ≡ false = sym found.2 ∙ straight in cc)
  ],
)

no_inverted :
    (scheme disposition cells cell : ℕ)
    → scheme_requires_polarity_inversion scheme disposition cells ≡ false
    → cell < cells
    → (modulation_cell_plan scheme disposition cell cells).polarity_inverted ≡ false
unfolding scheme_requires_polarity_inversion
no_inverted scheme disposition cells cell h within =
    inverts_from-none cells 0 scheme disposition cells cell h (omega arith) (omega arith)

paired_apart :
    (requested submodule : ℕ) (inverts : Bool)
    → inverts ≡ true
    → pair_is_complementary (pair_mode_sanitised_for_scheme requested submodule inverts) ≢ true
unfolding pair_mode_sanitised_for_scheme pair_is_complementary
paired_apart requested submodule inverts e = ground arith

-- A submodule of the engine that runs as a complementary pair never has its polarity inverted: that
-- would turn the dead time into an overlap.
pub pair-straight :
    (requested submodule scheme disposition cells cell : ℕ)
    → cell < cells
    → pair_is_complementary (
        pair_mode_sanitised_for_scheme requested submodule
          (scheme_requires_polarity_inversion scheme disposition cells))
      ≡ true
    → (modulation_cell_plan scheme disposition cell cells).polarity_inverted ≡ false
pair-straight requested submodule scheme disposition cells cell within runs =
    elim (Bool-cases (scheme_requires_polarity_inversion scheme disposition cells)) [
      | inl inverts ↦ absurd (
          paired_apart requested submodule
            (scheme_requires_polarity_inversion scheme disposition cells) inverts runs)
      | inr straight ↦ no_inverted scheme disposition cells cell straight within
    ]
