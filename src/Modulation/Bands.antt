-- ===== src/Modulation/Bands.antt =====
-- The stacked carrier bands of the level-shifted scheme.
use teg.Prelude.{ℕ, zero, suc, ◌+◌, ◌-◌, ◌*◌, ◌≤◌, ◌<◌, ◌≡◌, Bool, false, arith}
use native.Mathlib.Nat.{mul-le-mul_right}
use teg.Modulation.{ls_cell_duty}

-- The cells conduct from the bottom up: where a cell conducts at all, the one below it is fully on.
pub bands-Stacked :
    (ref cell num_cells : ℕ) (nearest : Bool)
    → 0 < ls_cell_duty ref (cell + 1) num_cells nearest
    → ls_cell_duty ref cell num_cells nearest ≡ 65535
unfolding ls_cell_duty
bands-Stacked ref cell num_cells nearest h = ground arith

-- The duties of the cells from `cell` on, `count` of them.
unfoldable pub duties : ℕ → ℕ → ℕ → ℕ → ℕ
duties zero ref cell num_cells = 0
duties (suc count) ref cell num_cells =
    ls_cell_duty ref cell num_cells false + duties count ref (cell + 1) num_cells

duties-bands :
    (count ref cell num_cells : ℕ)
    → ref * num_cells ≤ (cell + count) * 65536
    → (duties count ref cell num_cells ≤ ref * num_cells - cell * 65536)
      × (ref * num_cells - cell * 65536 ≤ duties count ref cell num_cells + count)
unfolding duties ls_cell_duty
duties-bands zero ref cell num_cells h = (omega arith, omega arith)
duties-bands (suc count) ref cell num_cells h =
    let rest = duties-bands count ref (cell + 1) num_cells (omega (arith, h)) in
    (ground (arith, rest.0, rest.1), ground (arith, rest.0, rest.1))

-- Together the cells make up the reference: the sum of their duties is the scaled reference, short of
-- it by at most one unit for each cell.
pub duties-sum :
    (ref num_cells : ℕ)
    → ref < 65536
    → (duties num_cells ref 0 num_cells ≤ ref * num_cells)
      × (ref * num_cells ≤ duties num_cells ref 0 num_cells + num_cells)
duties-sum ref num_cells h =
    let all = duties-bands num_cells ref 0 num_cells (
      omega
        (arith, mul-le-mul_right num_cells (let at_most : ref ≤ 65536 = omega arith in at_most))) in
    (omega (arith, all.0), omega (arith, all.1))
