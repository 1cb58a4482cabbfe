-- ===== src/Sketch/Cms/Cells.antt =====
-- What each cell of a Count-Min Sketch holds: the sum of what was added to the keys of its column.
use agent_guard_fast_path.Common.{
  ℕ, zero, suc, ◌+◌, ◌*◌, ◌^◌, ◌≤◌, ◌<◌, ◌≡◌, ◌≢◌, refl, sym, ◌∙◌, ap, ◌&&◌, List, Str, arith, u64,
  ◌==◌, if◌then◌else◌, is_empty, Bool-cases, inl, inr, length, get_or, set, length-set, get_or-set,
}
use native.Mathlib.Decide.{dec_lt, ℕ_discrete}
use agent_guard_fast_path.Sketch.Cms.{Cms, cms_col, cms_index, add_rows, cms_add}

-- The dimensions fit `uint32_t` and the table has a cell for each row and column.
pub record IsValid (c : Cms) : Type 0 where
  pub width_pos : 0 < c.width
  pub width_fits : c.width < 2 ^ 32
  pub depth_fits : c.depth < 2 ^ 32
  pub cells : length c.table ≡ c.width * c.depth

abbrev pub cell : Cms → ℕ → ℕ → ℕ
cell c row col = get_or c.table (row * c.width + col) 0

index_lt : (w d row col : ℕ) → row < d → col < w → row * w + col < w * d
index_lt w d row col h k = grind arith

mul_mono : (a b w : ℕ) → a ≤ b → a * w ≤ b * w
mul_mono a b w h = grind arith

index_eq_row : (w r c r' c' : ℕ) → c < w → r < r' → r * w + c ≢ r' * w + c'
index_eq_row w r c r' c' h lt e = omega (arith, mul_mono (suc r) r' w lt)

index_eq : (w r c r' c' : ℕ) → c < w → c' < w → r * w + c ≡ r' * w + c' → (r ≡ r') × (c ≡ c')
index_eq w r c r' c' h h' e = elim (dec_lt r r') [
  | yes lt ↦ absurd (index_eq_row w r c r' c' h lt e)
  | no ge ↦ elim (dec_lt r' r) [
    | yes lt ↦ absurd (index_eq_row w r' c' r c h' lt (sym e))
    | no le ↦ let same : r ≡ r' = omega arith in (same, omega (arith, ap (λ (t : ℕ). t * w) same))
  ]
]

module _ (w : ℕ) (width_pos : 0 < w) (width_fits : w < 2 ^ 32) where
  pub col-lt : (key : Str) (row : ℕ) → cms_col w key row < w
  unfolding cms_col
  col-lt key row = omega arith

  -- The index does not wrap.
  pub index_lem :
      (key : Str) (row : ℕ) → row < 2 ^ 32 → cms_index w key row ≡ row * w + cms_col w key row
  unfolding cms_index
  index_lem key row h = omega (arith, col-lt key row, mul_mono (suc row) (2 ^ 32) w h)

  module _ (d : ℕ) (depth_fits : d < 2 ^ 32) (key : Str) (delta : ℕ) where
    length-add_rows :
        (left row : ℕ) (table : List ℕ)
        → length (add_rows w key delta left row table) ≡ length table
    unfolding add_rows
    length-add_rows zero row table = refl
    length-add_rows (suc left) row table =
        let i = cms_index w key row in
        let v = u64 (get_or table i 0 + delta) in
        length-add_rows left (row + 1) (set table i v) ∙ length-set table i v

    -- The write of one row, seen from the cell at row `r` and column `c`.
    one_row :
        (row : ℕ) (table : List ℕ) (v r c : ℕ)
        → length table ≡ w * d
        → row < d
        → c < w
        → get_or (set table (cms_index w key row) v) (r * w + c) 0
          ≡ (if (row == r) && (cms_col w key row == c) then v else get_or table (r * w + c) 0)
    one_row row table v r c e h k =
        let col = cms_col w key row in
        ground (
          arith,
          index_lem key row,
          index_lt w d row col h (col-lt key row),
          get_or-set table (cms_index w key row) (r * w + c) v 0,
          index_eq w row col r c (col-lt key row) k,
          ap (λ (t : ℕ). t * w) {x = row} {y = r},
        )

    row_index :
        (row r c : ℕ) → row ≡ r → row < d → cms_col w key r ≡ c → cms_index w key row ≡ r * w + c
    row_index row r c e h k = rw (← k, ← e) (index_lem key row (omega arith))

    rows_before :
        (left row : ℕ) (table : List ℕ) (r c : ℕ)
        → length table ≡ w * d
        → row + left ≤ d
        → c < w
        → r < row
        → get_or (add_rows w key delta left row table) (r * w + c) 0 ≡ get_or table (r * w + c) 0
    unfolding add_rows
    rows_before zero row table r c e h k lt = refl
    rows_before (suc left) row table r c e h k lt =
        let i = cms_index w key row in
        let v = u64 (get_or table i 0 + delta) in
        ground (
          arith,
          one_row row table v r c e,
          length-set table i v,
          rows_before left (row + 1) (set table i v) r c,
        )

    rows_cell :
        (left row : ℕ) (table : List ℕ) (r c : ℕ)
        → length table ≡ w * d
        → row + left ≡ d
        → c < w
        → row ≤ r
        → r < d
        → get_or (add_rows w key delta left row table) (r * w + c) 0 ≡ (
            if cms_col w key r == c
            then u64 (get_or table (r * w + c) 0 + delta)
            else get_or table (r * w + c) 0)
    unfolding add_rows
    rows_cell zero row table r c e h k le lt = absurd (omega arith)
    rows_cell (suc left) row table r c e h k le lt =
        let i = cms_index w key row in
        let v = u64 (get_or table i 0 + delta) in
        elim (ℕ_discrete row r) [
          | yes same ↦
              rw
                (rows_before left (row + 1) (set table i v) r c (length-set table i v ∙ e)
                  (omega arith) k (omega arith))
                (ground (arith, one_row row table v r c e, row_index row r c same))
          | no differ ↦ ground (
            arith,
            one_row row table v r c e,
            length-set table i v,
            rows_cell left (row + 1) (set table i v) r c,
          )
        ]

pub cms_add-IsValid : (c : Cms) (key : Str) (delta : ℕ) → IsValid c → IsValid (cms_add c key delta)
unfolding cms_add
cms_add-IsValid c key delta v = record {
  width_pos = ground (arith, v.width_pos);
  width_fits = ground (arith, v.width_fits);
  depth_fits = ground (arith, v.depth_fits);
  cells = ground (
    arith,
    v.cells,
    length-add_rows c.width v.width_pos v.width_fits c.depth v.depth_fits key delta c.depth 0
        c.table,
  );
}

pub shape-cms_add :
    (c : Cms) (key : Str) (delta : ℕ)
    → ((cms_add c key delta).width ≡ c.width) × ((cms_add c key delta).depth ≡ c.depth)
unfolding cms_add
shape-cms_add c key delta = ground arith

-- `cms_add` adds `delta` to the cell of each row in the key's column, modulo 2 ^ 64, and to no other
-- cell; an empty key changes none.
pub cell-cms_add :
    (c : Cms) (key : Str) (delta row col : ℕ)
    → IsValid c
    → row < c.depth
    → col < c.width
    → cell (cms_add c key delta) row col ≡ (
        if is_empty key
        then cell c row col
        else if cms_col c.width key row == col
        then u64 (cell c row col + delta)
        else cell c row col)
unfolding cms_add
cell-cms_add c key delta row col v h k = elim (Bool-cases (is_empty key)) [
  | inl e ↦ rw e
  | inr ne ↦ rw ne (
      rows_cell c.width v.width_pos v.width_fits c.depth v.depth_fits key delta c.depth 0 c.table
        row col v.cells (omega arith) k (omega arith) h)
]
