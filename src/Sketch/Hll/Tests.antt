-- ===== src/Sketch/Hll/Tests.antt =====
-- A counter of leading zeros as the compiler documents it, and the theorems on HyperLogLog with it.
use agent_guard_fast_path.Common.{
  ℕ, zero, suc, ◌+◌, ◌-◌, ◌^◌, ◌≤◌, ◌<◌, ◌≡◌, List, [], ◌∷◌, Str, arith, leb, if◌then◌else◌,
  Bool-cases, inl, inr, get_or,
}
use agent_guard_fast_path.Text.{codes}
use agent_guard_fast_path.StringList.{contains}
use agent_guard_fast_path.Sketch.Hll.{remaining_bits, hll_init, hll_rank, hll_rank_portable}
use agent_guard_fast_path.Sketch.Hll.Rank.{CountsLeadingZeros, hll_rank-eq-portable}
use agent_guard_fast_path.Sketch.Hll.Registers.{run, peak, register-run-hll_init}

-- The place of the highest bit at or below bit `k`.
top : ℕ → ℕ → ℕ
top zero w = 0
top (suc k) w = let rest = top k w in if leb (2 ^ suc k) w then suc k else rest

clz : ℕ → ℕ
clz w = 63 - top 63 w

top_lem :
    (k w : ℕ) → 0 < w → w < 2 ^ suc k → (top k w ≤ k) × (2 ^ top k w ≤ w) × (w < 2 ^ suc (top k w))
unfolding top
top_lem zero w p h = (omega arith, omega arith, h)
top_lem (suc k) w p h = elim (Bool-cases (leb (2 ^ suc k) w)) [
  | inl e ↦ rw e (omega arith, ground arith, h)
  | inr ne ↦ rw ne (ground (arith, top_lem k w p))
]

clz-CountsLeadingZeros : CountsLeadingZeros clz
unfolding clz
clz-CountsLeadingZeros w p h =
    let (a, b, c) = top_lem 63 w p h in
    let e : 63 - (63 - top 63 w) ≡ top 63 w = omega arith in (omega arith, rw e b, rw e c)

hll_rank-eq-portable_example :
    (hll_rank clz 1234567 ≡ hll_rank_portable 1234567)
    × (1 ≤ hll_rank clz 1234567)
    × (hll_rank clz 1234567 ≤ remaining_bits + 1)
hll_rank-eq-portable_example = hll_rank-eq-portable clz 1234567 clz-CountsLeadingZeros (omega arith)

abbrev once : List Str
once = codes "a" ∷ codes "b" ∷ []

abbrev often : List Str
often = codes "b" ∷ codes "a" ∷ codes "b" ∷ []

same : (key : Str) → contains once key ≡ contains often key
unfolding contains
same key = ground arith

register-run-hll_init_example :
    (get_or (run clz hll_init often).registers 77 0 ≡ peak clz 77 often)
    × (get_or (run clz hll_init often).registers 77 0 ≤ 51)
register-run-hll_init_example = register-run-hll_init clz often 77 clz-CountsLeadingZeros
