-- ===== src/Sketch/Cms/Tests.antt =====
-- A small Count-Min Sketch at work.
use agent_guard_fast_path.Common.{ℕ, ◌≤◌, ◌<◌, ◌≡◌, refl, [], ◌∷◌, arith, u64, u64_max, replicate}
use agent_guard_fast_path.Text.{codes}
use agent_guard_fast_path.Hash.{fnv1a64, mix64}
use agent_guard_fast_path.Sketch.Cms.{cms_init, cms_col, cms_add, cms_estimate}
use agent_guard_fast_path.Sketch.Cms.Cells.{cell}
use agent_guard_fast_path.Sketch.Cms.Stream.{Updates, run, load, cell-run-cms_init}
use agent_guard_fast_path.Sketch.Cms.Bounds.{frequency, total, cms_estimate_bounds}

abbrev ups : Updates
ups = (codes "curl", 1) ∷ (codes "bash", 1) ∷ (codes "curl", 2) ∷ ([], 9) ∷ []

runs : cms_estimate (run (cms_init 8 3) ups) (codes "curl") ≡ 3
unfolding cms_estimate run cms_init cms_add fnv1a64 mix64 replicate
runs = refl

cell-run-cms_init_example : cell (run (cms_init 8 3) ups) 2 5 ≡ u64 (load 8 2 5 ups)
cell-run-cms_init_example =
    cell-run-cms_init 8 3 ups 2 5 (omega arith) (omega arith) (omega arith) (omega arith)
      (omega arith)

total-ups : total ups < u64_max
unfolding total
total-ups = omega arith

cms_estimate_bounds_example :
    let estimate = cms_estimate (run (cms_init 8 3) ups) (codes "curl") in
    (frequency (codes "curl") ups ≤ estimate)
    × (estimate ≤ total ups)
    × ((row : ℕ) → row < 3 → estimate ≤ load 8 row (cms_col 8 (codes "curl") row) ups)
cms_estimate_bounds_example =
    cms_estimate_bounds 8 3 ups (codes "curl") (omega arith) (omega arith) (omega arith)
      (omega arith) refl total-ups
