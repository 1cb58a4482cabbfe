-- ===== src/Sketch/Hll/Rank.antt =====
-- The two branches of `hll_rank` agree, and a rank fits its register.
use native.Mathlib.Nat.{pow-suc, pow-le-pow_right, one-le-pow}
use native.Mathlib.Decide.{ℕ_discrete, dec_lt}
use agent_guard_fast_path.Common.{
  ℕ, zero, suc, ◌+◌, ◌-◌, ◌^◌, ◌≤◌, ◌<◌, ◌≡◌, refl, ap, arith, Str, bit_top, bit_test, ◌>>>◌,
  bit_and-le,
}
use agent_guard_fast_path.Hash.{fnv1a64, mix64}
use agent_guard_fast_path.Hash.Bounds.{mix64-lt}
use agent_guard_fast_path.Sketch.Hll.{
  hll_p, hll_m, remaining_bits, rank_loop, hll_rank_portable, hll_rank, hll_idx, key_rank,
}

-- What the compiler documents of `__builtin_clzll`: the number of zero bits above the highest one
-- of a 64-bit number that is not zero.
abbrev pub CountsLeadingZeros : (ℕ → ℕ) → Type 0
CountsLeadingZeros clzll =
    (w : ℕ)
    → 0 < w
    → w < 2 ^ 64
    → (clzll w < 64) × (2 ^ (63 - clzll w) ≤ w) × (w < 2 ^ suc (63 - clzll w))

next_rank : (k : ℕ) → suc k < remaining_bits → remaining_bits - suc k + 1 ≡ remaining_bits - k
next_rank k h = omega arith

next_mask : (k : ℕ) → (2 ^ suc k) >>> 1 ≡ 2 ^ k
next_mask k = omega (arith, pow-suc 2 k)

-- From a mask at bit `k`, above which `w` has no bit, the loop stops at the highest bit `j`.
rank_loop_lem :
    (k left w j : ℕ)
    → k < left
    → k < remaining_bits
    → j ≤ k
    → 2 ^ j ≤ w
    → w < 2 ^ suc j
    → rank_loop left w (remaining_bits - k) (2 ^ k) ≡ remaining_bits - j
unfolding rank_loop
rank_loop_lem k zero w j h kb le lo hi = absurd (omega arith)
rank_loop_lem zero (suc left) w j h kb le lo hi =
    let only : j ≡ 0 = omega arith in
    ground
      (arith, bit_test 0 w, bit_top 0 w, ap (λ (t : ℕ). 2 ^ t) only, ap (λ (t : ℕ). 2 ^ suc t) only)
rank_loop_lem (suc k) (suc left) w j h kb le lo hi = elim (ℕ_discrete j (suc k)) [
  | yes e ↦
      let top : 2 ^ suc k ≤ w = rw (← e) lo in
      let all : w < 2 ^ suc (suc k) = rw (← e) hi in
      ground (arith, bit_test (suc k) w, bit_top (suc k) w all)
  | no ne ↦
      let below : w < 2 ^ suc k =
        omega
          (arith, pow-le-pow_right {n = 2} (omega arith) {i = suc j} {j = suc k} (omega arith)) in
      let step : rank_loop left w (remaining_bits - suc k + 1) ((2 ^ suc k) >>> 1)
          ≡ remaining_bits - j =
        rw (next_rank k kb, next_mask k)
          (rank_loop_lem k left w j (omega arith) (omega arith) (omega arith) lo hi) in
      ground (arith, step, bit_test (suc k) w, bit_top (suc k) w (omega (arith, pow-suc 2 (suc k))))
]

-- The portable branch finds the distance of the highest bit from bit 50.
portable_lem :
    (w j : ℕ)
    → j < remaining_bits
    → 2 ^ j ≤ w
    → w < 2 ^ suc j
    → hll_rank_portable w ≡ remaining_bits - j
unfolding hll_rank_portable
portable_lem w j h lo hi =
    ground (
      arith,
      one-le-pow j 2,
      rank_loop_lem 49 51 w j (omega arith) (omega arith) (omega arith) lo hi,
    )

zero_rank : (clzll : ℕ → ℕ) → (hll_rank clzll 0 ≡ 51) × (hll_rank_portable 0 ≡ 51)
unfolding hll_rank hll_rank_portable
zero_rank clzll = (refl, refl)

builtin_lem :
    (clzll : ℕ → ℕ) (w : ℕ) → 0 < w → clzll w < 64 → 13 < clzll w → hll_rank clzll w ≡ clzll w - 13
unfolding hll_rank
builtin_lem clzll w pos h k = ground arith

-- On every number that `hll_add` passes, below 2 ^ 50, the branch for GCC and Clang computes what
-- the portable loop computes, and the rank is from 1 to 51.
pub hll_rank-eq-portable :
    (clzll : ℕ → ℕ) (w : ℕ)
    → CountsLeadingZeros clzll
    → w < 2 ^ remaining_bits
    → (hll_rank clzll w ≡ hll_rank_portable w)
      × (1 ≤ hll_rank clzll w)
      × (hll_rank clzll w ≤ remaining_bits + 1)
hll_rank-eq-portable clzll zero c h = omega (arith, zero_rank clzll)
hll_rank-eq-portable clzll (suc n) c h =
    let w = suc n in
    let (range, lo, hi) = c w (omega arith) (omega arith) in
    let j = 63 - clzll w in
    let small : j < remaining_bits = elim (dec_lt j remaining_bits) [
      | yes lt ↦ lt
      | no ge ↦
          absurd
            (omega (arith, pow-le-pow_right {n = 2} (omega arith) {i = 50} {j = j} (omega arith)))
    ] in
    omega
      (arith, portable_lem w j small lo hi, builtin_lem clzll w (omega arith) range (omega arith))

-- The rank of every key is from 1 to 51, and its register is one of the 2 ^ 14.
pub key_rank_bounds :
    (clzll : ℕ → ℕ) (key : Str)
    → CountsLeadingZeros clzll
    → (1 ≤ key_rank clzll key) × (key_rank clzll key ≤ 51)
unfolding key_rank
key_rank_bounds clzll key c = omega (
  arith,
  hll_rank-eq-portable clzll (mix64 (fnv1a64 key) >>> hll_p) c
      (omega (arith, mix64-lt (fnv1a64 key))),
)

pub idx-lt : (key : Str) → hll_idx key < hll_m
unfolding hll_idx
idx-lt key =
    omega (arith, bit_and-le (mix64 (fnv1a64 key)) (mix64 (fnv1a64 key)) 16383 (omega arith))
