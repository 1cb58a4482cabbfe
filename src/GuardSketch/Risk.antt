-- ===== src/GuardSketch/Risk.antt =====
-- The approximate risk of a process against its exact risk.
use agent_guard_fast_path.Common.{
  ℕ, zero, suc, ◌+◌, ◌*◌, ◌^◌, ◌≤◌, ◌<◌, ◌≡◌, refl, List, arith, inl, inr, ltb, leb, if◌then◌else◌,
  Bool-cases, u64, u32_max,
}
use agent_guard_fast_path.GuardSketch.{
  Signal, event, sensitive_file, blocked_destination, network_after_file, Slot, signal_key, gs_col,
  gs_cell, gs_best_rows, gs_cms_estimate, score, exact_risk, approx_risk, gs_cms_depth,
}
use agent_guard_fast_path.GuardSketch.Counted.{exact_of, IsCounted}

-- The least of the cells of a key is between any bound below all of them and each of them.
best_rows-ge :
    (left row key k : ℕ) (cms : List (List ℕ)) (best : ℕ)
    → k ≤ best
    → ((r : ℕ) → row ≤ r → r < row + left → k ≤ gs_cell cms r (gs_col key r))
    → k ≤ gs_best_rows left row key cms best
unfolding gs_best_rows
best_rows-ge zero row key k cms best h low = h
best_rows-ge (suc left) row key k cms best h low =
    best_rows-ge left (row + 1) key k cms _ (ground (arith, low row))
      (λ r a b. low r (omega (arith, a)) (omega (arith, b)))

best_rows-le :
    (left row key : ℕ) (cms : List (List ℕ)) (best : ℕ)
    → (gs_best_rows left row key cms best ≤ best)
      × ((r : ℕ)
          → row ≤ r
          → r < row + left
          → gs_best_rows left row key cms best ≤ gs_cell cms r (gs_col key r))
unfolding gs_best_rows
best_rows-le zero row key cms best = (omega arith, λ r a b. absurd (omega (arith, a, b)))
best_rows-le (suc left) row key cms best =
    let c = gs_cell cms row (gs_col key row) in
    let (top, cells) = best_rows-le left (row + 1) key cms (if ltb c best then c else best) in
    (ground (arith, top), λ r a b. ground (arith, top, cells r))

-- The estimate of a signal is at least its exact counter and at most twice the events.
pub estimate_bounds :
    (s : Slot) (sig : Signal)
    → IsCounted s
    → s.exact_events < 2 ^ 31
    → (exact_of s sig ≤ gs_cms_estimate s sig) × (gs_cms_estimate s sig ≤ 2 * s.exact_events)
unfolding gs_cms_estimate
estimate_bounds s sig h few =
    let key = signal_key s.pid sig in
    let low =
      best_rows-ge gs_cms_depth 0 key (exact_of s sig) s.cms u32_max
        (omega (arith, few, h.part sig)) (λ r a b. h.low sig r (omega (arith, b))) in
    let high = (best_rows-le gs_cms_depth 0 key s.cms u32_max).1 0 (omega arith) (omega arith) in
    ground (arith, low, high, h.high 0 (gs_col key 0))

-- Without wrap-around.
plain_score : ℕ → ℕ → ℕ → ℕ → ℕ
plain_score e s b n = s * 25 + b * 35 + n * 30 + (if leb 8 e then 10 else 0)

score_small :
    (e s b n : ℕ)
    → s < 2 ^ 32
    → b < 2 ^ 32
    → n < 2 ^ 32
    → score e s b n ≡ (if ltb 100 (plain_score e s b n) then 100 else plain_score e s b n)
unfolding plain_score
score_small e s b n hs hb hn =
    let sum : u64 (u64 (u64 (s * 25) + u64 (b * 35)) + u64 (n * 30)) ≡ s * 25 + b * 35 + n * 30 =
      omega (arith, hs, hb, hn) in
    elim (Bool-cases (leb 8 e)) [
      | inl many ↦
          let ten : u64 (s * 25 + b * 35 + n * 30 + 10) ≡ s * 25 + b * 35 + n * 30 + 10 =
            omega (arith, hs, hb, hn) in
          rw (many, sum, ten) refl
      | inr few ↦
          let same : s * 25 + b * 35 + n * 30 ≡ s * 25 + b * 35 + n * 30 + 0 = omega arith in
          rw (few, sum, ← same) refl
    ]

score_mono :
    (e s b n e' s' b' n' : ℕ)
    → e ≤ e'
    → s ≤ s'
    → b ≤ b'
    → n ≤ n'
    → s' < 2 ^ 32
    → b' < 2 ^ 32
    → n' < 2 ^ 32
    → score e s b n ≤ score e' s' b' n'
unfolding plain_score
score_mono e s b n e' s' b' n' he hs hb hn ls lb ln =
    let more : plain_score e s b n ≤ plain_score e' s' b' n' = ground (arith, he) in
    rw
      (
        score_small e s b n (omega (arith, hs, ls)) (omega (arith, hb, lb)) (omega (arith, hn, ln)),
        score_small e' s' b' n' ls lb ln,
      )
      (ground (arith, more))

-- The approximate risk of a counted slot is never below its exact risk.
pub risk-IsCounted :
    (s : Slot) → IsCounted s → s.exact_events < 2 ^ 31 → exact_risk s ≤ approx_risk s
unfolding exact_risk approx_risk
risk-IsCounted s h few =
    let ev = estimate_bounds s event h few in
    let se = estimate_bounds s sensitive_file h few in
    let bl = estimate_bounds s blocked_destination h few in
    let ne = estimate_bounds s network_after_file h few in
    score_mono s.exact_events s.exact_sensitive s.exact_blocked s.exact_network_after_file
      (gs_cms_estimate s event) (gs_cms_estimate s sensitive_file)
      (gs_cms_estimate s blocked_destination) (gs_cms_estimate s network_after_file) ev.0 se.0 bl.0
      ne.0 (omega (arith, few, se.1)) (omega (arith, few, bl.1)) (omega (arith, few, ne.1))
