-- ===== src/Sketch/SpaceSaving/Guarantee.antt =====
-- The guarantee of the Space-Saving algorithm: every counter brackets the true frequency of its key,
-- and no frequent key is missing.
use mathlib.Core.Path.{subst₂, fun_ext}
use native.Mathlib.Decide.{dec_lt}
use agent_guard_fast_path.Common.{
  ℕ, ◌+◌, ◌*◌, ◌^◌, ◌≤◌, ◌<◌, ◌≡◌, refl, ap, true, false, List, [], ◌∷◌, Str, arith, str_eq,
  if◌then◌else◌, is_empty, length, All, inl, inr, Bool-cases,
}
use agent_guard_fast_path.Sketch.SpaceSaving.{
  SpaceSaving, ss_init, max_str, space_saving_k, ss_update,
}
use agent_guard_fast_path.Sketch.SpaceSaving.Counters.{tracked, total, Distinct, least-mul-length}
use agent_guard_fast_path.Sketch.SpaceSaving.Step.{Inv, Brackets, more, ss_update-Inv}

-- A stream of calls `ss_update(ss, key)`.
unfoldable pub run : SpaceSaving → List Str → SpaceSaving
run ss [] = ss
run ss (x ∷ xs) = run (ss_update ss x) xs

-- How often `k` stands in a stream.
unfoldable pub occurrences : List Str → Str → ℕ
occurrences [] k = 0
occurrences (x ∷ xs) k = (if str_eq x k then 1 else 0) + occurrences xs k

-- The keys that fit the `key` array of an entry and are not empty, as all fields of an event that
-- `telemetry_update` passes.
abbrev pub IsKey : Str → Type 0
IsKey x = (is_empty x ≡ false) × (length x < max_str)

-- The frequencies that a stream adds to those before it.
abbrev after : (Str → ℕ) → List Str → Str → ℕ
after f xs k = occurrences xs k + f k

run-Inv :
    (f : Str → ℕ) (n : ℕ) (ss : SpaceSaving) (xs : List Str)
    → Inv f n ss
    → All IsKey xs
    → n + length xs < 2 ^ 64
    → Inv (after f xs) (n + length xs) (run ss xs)
unfolding run occurrences
run-Inv f n ss [] inv h room =
    let same : f ≡ after f [] = fun_ext (λ k. omega arith) in
    let count : n ≡ n + 0 = omega arith in subst₂ (λ g m. Inv g m ss) same count inv
run-Inv f n ss (x ∷ xs) inv h room =
    let rest =
      run-Inv (more f x) (n + 1) (ss_update ss x) xs
        (ss_update-Inv f n ss x inv (omega arith) h.0.0 h.0.1) h.1 (omega arith) in
    let same : after (more f x) xs ≡ after f (x ∷ xs) = fun_ext (λ k. omega arith) in
    let count : n + 1 + length xs ≡ n + length (x ∷ xs) = omega arith in
    subst₂ (λ g m. Inv g m (run (ss_update ss x) xs)) same count rest

init-Inv : Inv (λ k. 0) 0 ss_init
unfolding total tracked
init-Inv = record {
  brackets = tt;
  absent = λ k u. tt;
  unseen = λ k u few. refl;
  distinct = tt;
  sum = refl;
  few = omega arith;
}

stream-Inv :
    (xs : List Str)
    → All IsKey xs
    → length xs < 2 ^ 64
    → Inv (occurrences xs) (length xs) (run ss_init xs)
stream-Inv xs h room =
    let same : after (λ k. 0) xs ≡ occurrences xs = fun_ext (λ k. omega arith) in
    let count : 0 + length xs ≡ length xs = omega arith in
    subst₂ (λ g m. Inv g m (run ss_init xs)) same count
      (run-Inv (λ k. 0) 0 ss_init xs init-Inv h (omega arith))

-- After any stream of fewer than 2 ^ 64 non-empty keys of at most 511 bytes, every counter brackets
-- the number of occurrences of its key, `count - error ≤ occurrences ≤ count`; the counts add up to
-- the length of the stream; no key has two counters; and at most 16 are in use.
pub ss_update_guarantee :
    (xs : List Str)
    → All IsKey xs
    → length xs < 2 ^ 64
    → All (Brackets (occurrences xs)) (run ss_init xs)
      × (total (run ss_init xs) ≡ length xs)
      × Distinct (run ss_init xs)
      × (length (run ss_init xs) ≤ space_saving_k)
ss_update_guarantee xs h room =
    let inv = stream-Inv xs h room in (inv.brackets, inv.sum, inv.distinct, inv.few)

-- A key that makes up more than a sixteenth of a stream of fewer than 2 ^ 64 non-empty keys of at
-- most 511 bytes has a counter at its end.
pub heavy_hitter-tracked :
    (xs : List Str) (k : Str)
    → All IsKey xs
    → length xs < 2 ^ 64
    → length xs < space_saving_k * occurrences xs k
    → tracked (run ss_init xs) k ≡ true
heavy_hitter-tracked xs k h room heavy = elim (Bool-cases (tracked (run ss_init xs) k)) [
  | inl t ↦ t
  | inr u ↦
      let inv = stream-Inv xs h room in
      absurd (elim (dec_lt (length (run ss_init xs)) space_saving_k) [
        | yes few ↦ omega (arith, inv.unseen k u few)
        | no ge ↦
            let full : length (run ss_init xs) ≡ space_saving_k = omega (arith, inv.few) in
            omega (
              arith,
              inv.sum,
              least-mul-length (occurrences xs k) (run ss_init xs) (inv.absent k u),
              ap (λ (t : ℕ). t * occurrences xs k) full,
            )
      ])
]
