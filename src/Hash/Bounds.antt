-- ===== src/Hash/Bounds.antt =====
-- The hashes of src/common.c are 64-bit numbers.
use agent_guard_fast_path.Common.{ℕ, ◌*◌, ◌^◌, ◌<◌, arith, [], ◌∷◌, Str, bit_xor, u64, xor-lt-pow}
use agent_guard_fast_path.Hash.{fnv1a64_from, fnv1a64, mix64}

fnv1a64_from-lt : (h : ℕ) (s : Str) → h < 2 ^ 64 → fnv1a64_from h s < 2 ^ 64
unfolding fnv1a64_from
fnv1a64_from-lt h [] k = k
fnv1a64_from-lt h (c ∷ s) k = fnv1a64_from-lt (u64 (bit_xor h c * 1099511628211)) s (omega arith)

pub fnv1a64-lt : (s : Str) → fnv1a64 s < 2 ^ 64
unfolding fnv1a64
fnv1a64-lt s = fnv1a64_from-lt 1469598103934665603 s (omega arith)

pub mix64-lt : (x : ℕ) → mix64 x < 2 ^ 64
unfolding mix64
mix64-lt x = xor-lt-pow 64 _ _ (omega arith) (omega arith)
