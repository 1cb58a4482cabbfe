-- ===== src/Sketch/Cms/Bounds.antt =====
-- A Count-Min estimate never falls below the true frequency.
use agent_guard_fast_path.Common.{
  ℕ, zero, suc, ◌+◌, ◌*◌, ◌^◌, ◌≤◌, ◌<◌, ◌≡◌, refl, ap, false, List, [], ◌∷◌, Str, arith, u64_max,
  ltb, if◌then◌else◌, is_empty, str_eq, str_eq_iff, get_or,
}
use native.Mathlib.Decide.{ℕ_discrete}
use agent_guard_fast_path.Sketch.Cms.{Cms, cms_init, cms_col, cms_index, best_rows, cms_estimate}
use agent_guard_fast_path.Sketch.Cms.Cells.{index_lem, col-lt}
use agent_guard_fast_path.Sketch.Cms.Stream.{Updates, run, load, shape-run, cell-run-cms_init}

-- What was added under a key.
unfoldable pub frequency : Str → Updates → ℕ
frequency k [] = 0
frequency k ((key, delta) ∷ ups) = (if str_eq key k then delta else 0) + frequency k ups

-- What was added in all; additions under the empty key are ignored.
unfoldable pub total : Updates → ℕ
total [] = 0
total ((key, delta) ∷ ups) = (if is_empty key then 0 else delta) + total ups

load-le-total : (w row col : ℕ) (ups : Updates) → load w row col ups ≤ total ups
unfolding load total
load-le-total w row col [] = omega arith
load-le-total w row col ((key, delta) ∷ ups) = ground (arith, load-le-total w row col ups)

frequency-le-load :
    (w row : ℕ) (k : Str) (ups : Updates)
    → is_empty k ≡ false
    → frequency k ups ≤ load w row (cms_col w k row) ups
unfolding load frequency
frequency-le-load w row k [] ne = omega arith
frequency-le-load w row k ((key, delta) ∷ ups) ne = ground (
  arith,
  frequency-le-load w row k ups ne,
  str_eq_iff key k,
  ap (is_empty {A = ℕ}) {x = key} {y = k},
  ap (λ (t : Str). cms_col w t row) {x = key} {y = k},
)

module _ (w : ℕ) (key : Str) (table : List ℕ) where
  abbrev entry : ℕ → ℕ
  entry row = get_or table (cms_index w key row) 0

  -- The loop finds a lower bound of its start and of every row that it visits.
  best_rows_le : (left row best : ℕ) → best_rows w key table left row best ≤ best
  unfolding best_rows
  best_rows_le zero row best = omega arith
  best_rows_le (suc left) row best =
      ground (arith, best_rows_le left (row + 1) (if ltb (entry row) best then entry row else best))

  best_rows_le_entry :
      (left row best r : ℕ)
      → row ≤ r
      → r < row + left
      → best_rows w key table left row best ≤ entry r
  unfolding best_rows
  best_rows_le_entry zero row best r p q = absurd (omega arith)
  best_rows_le_entry (suc left) row best r p q =
      let next = if ltb (entry row) best then entry row else best in
      elim (ℕ_discrete row r) [
        | yes e ↦ rw (← e) (ground (arith, best_rows_le left (row + 1) next))
        | no ne ↦ best_rows_le_entry left (row + 1) next r (omega arith) (omega arith)
      ]

  -- The greatest one.
  le_best_rows :
      (m left row best : ℕ)
      → m ≤ best
      → ((r : ℕ) → row ≤ r → r < row + left → m ≤ entry r)
      → m ≤ best_rows w key table left row best
  unfolding best_rows
  le_best_rows m zero row best h k = h
  le_best_rows m (suc left) row best h k =
      le_best_rows m left (row + 1) (if ltb (entry row) best then entry row else best)
        (ground (arith, h, k row)) (λ r p q. k r (omega arith) (omega arith))

shape-cms_init : (w d : ℕ) → ((cms_init w d).width ≡ w) × ((cms_init w d).depth ≡ d)
unfolding cms_init
shape-cms_init w d = (refl, refl)

module _ (w d : ℕ) (ups : Updates) (key : Str) (p : 0 < w) (q : w < 2 ^ 32) (q' : d < 2 ^ 32) where
  abbrev after : Cms
  after = run (cms_init w d) ups

  shape-after : (after.width ≡ w) × (after.depth ≡ d)
  shape-after = ground (arith, shape-run (cms_init w d) ups, shape-cms_init w d)

  -- Nothing has wrapped in a sketch that was given less than 2 ^ 64 in all.
  row_entry :
      (row : ℕ)
      → row < d
      → total ups < u64_max
      → entry w key after.table row ≡ load w row (cms_col w key row) ups
  row_entry row h small =
      let col = cms_col w key row in
      let at : cms_index w key row ≡ row * after.width + col =
        rw (shape-after.0) (index_lem w p q key row (omega arith)) in
      rw at (
        omega (
          arith,
          cell-run-cms_init w d ups row col p q q' h (col-lt w p q key row),
          load-le-total w row col ups,
        ))

  estimate-eq-best :
      is_empty key ≡ false
      → best_rows w key after.table d 0 u64_max < u64_max
      → cms_estimate after key ≡ best_rows w key after.table d 0 u64_max
  unfolding cms_estimate
  estimate-eq-best ne small = rw (ne, shape-after.0, shape-after.1) (ground arith)

-- For a new sketch of at least one row and one column, after any stream of additions whose sum is
-- below `UINT64_MAX`, the estimate of a non-empty key is at least what was added under that key, at
-- most what was added in all, and in each row at most what the keys of its column were given.
pub cms_estimate_bounds :
    (w d : ℕ) (ups : Updates) (key : Str)
    → 0 < w
    → w < 2 ^ 32
    → 0 < d
    → d < 2 ^ 32
    → is_empty key ≡ false
    → total ups < u64_max
    → let estimate = cms_estimate (run (cms_init w d) ups) key in
      (frequency key ups ≤ estimate)
      × (estimate ≤ total ups)
      × ((row : ℕ) → row < d → estimate ≤ load w row (cms_col w key row) ups)
cms_estimate_bounds w d ups key p q p' q' ne small =
    let table = (run (cms_init w d) ups).table in
    let best = best_rows w key table d 0 u64_max in
    let at = row_entry w d ups key p q q' in
    let upper : (row : ℕ) → row < d → best ≤ load w row (cms_col w key row) ups = λ row h.
      rw (← at row h small)
        (best_rows_le_entry w key table d 0 u64_max row (omega arith) (omega arith)) in
    let below : best ≤ total ups =
      omega (arith, upper 0 p', load-le-total w 0 (cms_col w key 0) ups) in
    let lower : frequency key ups ≤ best =
      le_best_rows w key table (frequency key ups) d 0 u64_max
        (omega (arith, load-le-total w 0 (cms_col w key 0) ups, frequency-le-load w 0 key ups ne))
        (λ r _ h. rw (at r (omega arith) small) (frequency-le-load w r key ups ne)) in
    rw (estimate-eq-best w d ups key p q q' ne (omega (arith, below))) (lower, below, upper)
