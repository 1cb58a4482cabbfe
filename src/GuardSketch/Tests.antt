-- ===== src/GuardSketch/Tests.antt =====
-- The theorem on the guard sketch, and the sketch at work, at a few calls of two processes.
use agent_guard_fast_path.Common.{ℕ, ◌+◌, ◌*◌, ◌≤◌, ◌≡◌, List, [], ◌∷◌, arith, ℤ, pos}
use agent_guard_fast_path.GuardSketch.{
  Signal, event, sensitive_file, network_after_file, gs_init, exact_risk, approx_risk,
  gs_cms_estimate,
}
use agent_guard_fast_path.GuardSketch.Counted.{exact_of}
use agent_guard_fast_path.GuardSketch.Slots.{slot_at}
use agent_guard_fast_path.GuardSketch.Accounting.{run, guard_sketch_lem}

abbrev calls : List (ℤ × Signal)
calls = (pos 7, sensitive_file) ∷ (pos 9, event) ∷ (pos 7, network_after_file) ∷ []

guard_sketch_lem_example :
    let sk = run (gs_init 2) calls in
    (sk.window_events ≤ (gs_init 2).window_limit)
    × (sk.window_events + sk.dropped_events ≡ 3)
    × ((i : ℕ) (sig : Signal)
        → let s = slot_at sk.slots i in
          (exact_of s sig ≤ gs_cms_estimate s sig)
          × (gs_cms_estimate s sig ≤ 2 * s.exact_events)
          × (exact_risk s ≤ approx_risk s))
guard_sketch_lem_example = guard_sketch_lem 2 calls (omega arith) (omega arith)
