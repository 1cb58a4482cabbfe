-- ===== src/Sketch/SpaceSaving/Tests.antt =====
-- Space-Saving counters at work.
use agent_guard_fast_path.Common.{
  ◌≤◌, ◌≡◌, refl, true, List, [], ◌∷◌, Str, arith, length, All, str_eq,
}
use agent_guard_fast_path.Text.{codes, copy_trunc}
use agent_guard_fast_path.Sketch.SpaceSaving.{ss_init, ss_update, space_saving_k}
use agent_guard_fast_path.Sketch.SpaceSaving.Counters.{tracked, total, Distinct}
use agent_guard_fast_path.Sketch.SpaceSaving.Step.{Brackets}
use agent_guard_fast_path.Sketch.SpaceSaving.Guarantee.{
  run, occurrences, ss_update_guarantee, heavy_hitter-tracked,
}

abbrev stream : List Str
stream = codes "a" ∷ codes "b" ∷ codes "a" ∷ []

runs :
    run ss_init stream
    ≡ record { key = codes "a"; count = 2; error = 0 }
      ∷ record { key = codes "b"; count = 1; error = 0 }
      ∷ []
unfolding run ss_update copy_trunc str_eq
runs = refl

ss_update_guarantee_example :
    All (Brackets (occurrences stream)) (run ss_init stream)
    × (total (run ss_init stream) ≡ 3)
    × Distinct (run ss_init stream)
    × (length (run ss_init stream) ≤ space_saving_k)
ss_update_guarantee_example =
    ss_update_guarantee stream
      ((refl, omega arith), ((refl, omega arith), ((refl, omega arith), tt))) (omega arith)

often : occurrences stream (codes "a") ≡ 2
unfolding occurrences str_eq
often = refl

heavy_hitter-tracked_example : tracked (run ss_init stream) (codes "a") ≡ true
heavy_hitter-tracked_example =
    heavy_hitter-tracked stream (codes "a")
      ((refl, omega arith), ((refl, omega arith), ((refl, omega arith), tt))) (omega arith)
      (omega (arith, often))
