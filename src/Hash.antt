-- ===== src/Hash.antt =====
-- `fnv1a64` and `mix64` of src/common.c: the 64-bit hashes on which every sketch rests. No theorem
-- rests on how well they spread their input.
pub mod Bounds
use agent_guard_fast_path.Common.{ℕ, ◌*◌, [], ◌∷◌, Str, bit_xor, u64, ◌>>>◌}

fnv1a64_from : ℕ → Str → ℕ
fnv1a64_from h [] = h
fnv1a64_from h (c ∷ s) = fnv1a64_from (u64 (bit_xor h c * 1099511628211)) s

unfoldable pub fnv1a64 : Str → ℕ
unfolding fnv1a64_from
fnv1a64 s = fnv1a64_from 1469598103934665603 s

-- `x ^= x >> 33`
abbrev xor_shift : ℕ → ℕ
xor_shift x = bit_xor x (x >>> 33)

unfoldable pub mix64 : ℕ → ℕ
mix64 x0 =
    let x1 = u64 (xor_shift x0 * 0xff51afd7ed558ccd) in
    let x2 = u64 (xor_shift x1 * 0xc4ceb9fe1a85ec53) in xor_shift x2
