-- ===== src/GuardSketch/Cells.antt =====
-- The table of a slot: one addition writes one cell of each row.
use agent_guard_fast_path.Common.{
  ℕ, zero, suc, ◌+◌, ◌≤◌, ◌<◌, ◌≡◌, refl, ap, ◌∙◌, ◌&&◌, List, [], arith, inl, inr, ◌==◌, ==_iff,
  if◌then◌else◌, Bool-cases, length, get_or, set, get_or-set, length-set, u32_max,
}
use agent_guard_fast_path.GuardSketch.{
  gs_col, gs_cell, saturating_inc, gs_add_rows, gs_cms_depth, gs_cms_width,
}

-- Three rows of 256 cells.
pub record Shaped (cms : List (List ℕ)) : Type 0 where
  pub rows : length cms ≡ gs_cms_depth
  pub cols : (r : ℕ) → r < gs_cms_depth → length (get_or cms r []) ≡ gs_cms_width

gs_col-lt : (key row : ℕ) → gs_col key row < gs_cms_width
unfolding gs_col
gs_col-lt key row = omega arith

-- One cell is written.
module _ (cms : List (List ℕ)) (row col v : ℕ) (s : Shaped cms) (lt : row < gs_cms_depth)
    (lt' : col < gs_cms_width) where
  abbrev written : List (List ℕ)
  written = set cms row (set (get_or cms row []) col v)

  row_written :
      (r : ℕ)
      → get_or written r [] ≡ (if row == r then set (get_or cms row []) col v else get_or cms r [])
  row_written r = get_or-set cms row r (set (get_or cms row []) col v) [] (omega (arith, s.rows))

  written-Shaped : Shaped written
  written-Shaped = record {
    rows = length-set cms row (set (get_or cms row []) col v) ∙ s.rows;
    cols = λ r h.
        let here = length-set (get_or cms row []) col v ∙ s.cols row lt in
        elim (Bool-cases (row == r)) [
          | inl e ↦ rw (row_written, e) here
          | inr e ↦ rw (row_written, e) (s.cols r h)
        ];
  }

  cell-written :
      (r c : ℕ) → gs_cell written r c ≡ (if r == row && c == col then v else gs_cell cms r c)
  cell-written r c =
      let inside = get_or-set (get_or cms row []) col c v 0 (omega (arith, s.cols row lt)) in
      elim (Bool-cases (row == r)) [
        | inl e ↦
            let same : row ≡ r = (==_iff row r).0 e in
            rw (row_written, e, inside) (ground (arith, ap (λ (t : ℕ). gs_cell cms t c) same))
        | inr e ↦ rw (row_written, e) (ground arith)
      ]

-- What one addition under `key` does to the rows from `row` on.
pub record Adds (cms : List (List ℕ)) (left row key : ℕ) (after : List (List ℕ)) : Type 0 where
  pub shaped : Shaped after
  pub before : (r c : ℕ) → r < row → gs_cell after r c ≡ gs_cell cms r c
  pub grows : (r c : ℕ) → gs_cell cms r c ≤ gs_cell after r c
  pub by_one : (r c : ℕ) → gs_cell after r c ≤ gs_cell cms r c + 1
  pub counted :
      (r : ℕ)
      → row ≤ r
      → r < row + left
      → gs_cell cms r (gs_col key r) < u32_max
      → gs_cell cms r (gs_col key r) + 1 ≤ gs_cell after r (gs_col key r)

pub gs_add_rows-Adds :
    (left row key : ℕ) (cms : List (List ℕ))
    → Shaped cms
    → row + left ≤ gs_cms_depth
    → Adds cms left row key (gs_add_rows left row key cms)
unfolding gs_add_rows
gs_add_rows-Adds zero row key cms s h = record {
  shaped = s;
  before = λ r c k. refl;
  grows = λ r c. omega arith;
  by_one = λ r c. omega arith;
  counted = λ r a b k. absurd (omega (arith, a, b));
}
gs_add_rows-Adds (suc left) row key cms s h =
    let col = gs_col key row in
    let v = saturating_inc (gs_cell cms row col) in
    let lt : row < gs_cms_depth = omega arith in
    let cell = cell-written cms row col v s lt (gs_col-lt key row) in
    let after =
      gs_add_rows-Adds left (row + 1) key (written cms row col v s lt (gs_col-lt key row))
        (written-Shaped cms row col v s lt (gs_col-lt key row)) (omega arith) in
    record {
      shaped = after.shaped;
      before = λ r c k. ground (arith, cell r c, after.before r c);
      grows = λ r c. ground (arith, cell r c, after.grows r c);
      by_one = λ r c. ground (arith, cell r c, after.before r c, after.by_one r c);
      counted = λ r a b k.
          ground (arith, cell r (gs_col key r), after.before r (gs_col key r), after.counted r);
    }
