-- ===== src/Sketch/Cms/Stream.antt =====
-- A stream of additions to a Count-Min Sketch, and what its cells hold afterwards.
use agent_guard_fast_path.Common.{
  ℕ, ◌+◌, ◌*◌, ◌^◌, ◌<◌, ◌≡◌, refl, ap, List, [], ◌∷◌, Str, arith, u64, ◌==◌, if◌then◌else◌,
  is_empty, get_or-replicate, length-replicate,
}
use agent_guard_fast_path.Sketch.Cms.{Cms, cms_init, cms_col, cms_add}
use agent_guard_fast_path.Sketch.Cms.Cells.{
  IsValid, cell, cms_add-IsValid, shape-cms_add, cell-cms_add,
}

-- A stream of calls `cms_add(cms, key, delta)`.
abbrev pub Updates : Type 0
Updates = List (Str × ℕ)

unfoldable pub run : Cms → Updates → Cms
run c [] = c
run c ((key, delta) ∷ ups) = run (cms_add c key delta) ups

-- What the keys of column `col` of row `row` were given in all.
unfoldable pub load : ℕ → ℕ → ℕ → Updates → ℕ
load w row col [] = 0
load w row col ((key, delta) ∷ ups) =
    (if is_empty key then 0 else if cms_col w key row == col then delta else 0) + load w row col ups

run-IsValid : (c : Cms) (ups : Updates) → IsValid c → IsValid (run c ups)
unfolding run
run-IsValid c [] v = v
run-IsValid c ((key, delta) ∷ ups) v =
    run-IsValid (cms_add c key delta) ups (cms_add-IsValid c key delta v)

pub shape-run :
    (c : Cms) (ups : Updates) → ((run c ups).width ≡ c.width) × ((run c ups).depth ≡ c.depth)
unfolding run
shape-run c [] = (refl, refl)
shape-run c ((key, delta) ∷ ups) =
    ground (arith, shape-run (cms_add c key delta) ups, shape-cms_add c key delta)

cell-run :
    (c : Cms) (ups : Updates) (row col : ℕ)
    → IsValid c
    → row < c.depth
    → col < c.width
    → cell c row col < 2 ^ 64
    → cell (run c ups) row col ≡ u64 (cell c row col + load c.width row col ups)
unfolding run load
cell-run c [] row col v h k small = omega arith
cell-run c ((key, delta) ∷ ups) row col v h k small =
    let c' = cms_add c key delta in
    ground (
      arith,
      shape-cms_add c key delta,
      cell-cms_add c key delta row col v h k,
      cell-run c' ups row col (cms_add-IsValid c key delta v),
      ap (λ (t : ℕ). load t row col ups) ((shape-cms_add c key delta).0),
    )

cms_init-IsValid : (w d : ℕ) → 0 < w → w < 2 ^ 32 → d < 2 ^ 32 → IsValid (cms_init w d)
unfolding cms_init
cms_init-IsValid w d p q r = record {
  width_pos = p;
  width_fits = q;
  depth_fits = r;
  cells = length-replicate (w * d) 0;
}

-- After any stream of additions to a new sketch, each cell holds the sum, modulo 2 ^ 64, of what was
-- added to the non-empty keys that hash to its column in its row, and nothing else.
pub cell-run-cms_init :
    (w d : ℕ) (ups : Updates) (row col : ℕ)
    → 0 < w
    → w < 2 ^ 32
    → d < 2 ^ 32
    → row < d
    → col < w
    → cell (run (cms_init w d) ups) row col ≡ u64 (load w row col ups)
unfolding cms_init
cell-run-cms_init w d ups row col p q r h k =
    let zero_cell : cell (cms_init w d) row col ≡ 0 = get_or-replicate (w * d) (row * w + col) 0 in
    let v = cms_init-IsValid w d p q r in
    ground (
      arith,
      zero_cell,
      shape-run (cms_init w d) ups,
      cell-run (cms_init w d) ups row col v h k (omega (arith, zero_cell)),
    )
