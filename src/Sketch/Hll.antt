-- ===== src/Sketch/Hll.antt =====
-- The HyperLogLog registers of src/agfast_parts/sketches.c. `hll_estimate` computes with doubles and
-- is not modelled.
pub mod Rank
pub mod Registers
mod Tests
use agent_guard_fast_path.Common.{
  ℕ, zero, suc, ◌+◌, ◌-◌, ◌/◌, ◌%◌, ◌^◌, Bool, ◌&&◌, List, Str, bit_and, u8, u32, ltb, leb, ◌==◌,
  ◌>>>◌, if◌then◌else◌, is_empty, get_or, set, replicate,
}
use agent_guard_fast_path.Hash.{fnv1a64, mix64}

-- `AGF_HLL_P` and `AGF_HLL_M`
abbrev pub hll_p : ℕ
hll_p = 14

abbrev pub hll_m : ℕ
hll_m = 2 ^ 14

abbrev pub remaining_bits : ℕ
remaining_bits = 64 - hll_p

-- `hll_t`
pub record Hll : Type 0 where
  pub registers : List ℕ

-- The memory of a `telemetry_t` is cleared.
unfoldable pub hll_init : Hll
hll_init = record { registers = replicate hll_m 0 }

-- `while ((w & mask) == 0 && rank <= remaining_bits)`; at most `remaining_bits` rounds are made.
pub rank_loop : ℕ → ℕ → ℕ → ℕ → ℕ
rank_loop zero w rank mask = rank
rank_loop (suc left) w rank mask =
    let rest = rank_loop left w (rank + 1) (mask >>> 1) in
    if (bit_and w mask == 0) && leb rank remaining_bits then rest else rank

abbrev clamp_rank : ℕ → ℕ
clamp_rank rank = u8 (if ltb (remaining_bits + 1) rank then remaining_bits + 1 else rank)

-- The branch of `hll_rank` for other compilers.
unfoldable pub hll_rank_portable : ℕ → ℕ
unfolding rank_loop
hll_rank_portable w =
    if w == 0
    then u8 (remaining_bits + 1)
    else clamp_rank (rank_loop (remaining_bits + 1) w 1 (2 ^ (remaining_bits - 1)))

-- The register of a key.
unfoldable pub hll_idx : Str → ℕ
hll_idx key = u32 (bit_and (mix64 (fnv1a64 key)) (hll_m - 1))

-- `clzll` is the compiler's `__builtin_clzll`.
module _ (clzll : ℕ → ℕ) where
  -- The branch of `hll_rank` for GCC and Clang, in `unsigned` arithmetic.
  unfoldable pub hll_rank : ℕ → ℕ
  hll_rank w =
      if w == 0
      then u8 (remaining_bits + 1)
      else clamp_rank (u32 (u32 (clzll w + 2 ^ 32 - hll_p) + 1))

  -- The rank of a key.
  unfoldable pub key_rank : Str → ℕ
  unfolding hll_rank
  key_rank key = hll_rank (mix64 (fnv1a64 key) >>> hll_p)

  unfoldable pub hll_add : Hll → Str → Hll
  unfolding hll_idx key_rank
  hll_add hll key =
      if is_empty key
      then hll
      else if ltb (get_or hll.registers (hll_idx key) 0) (key_rank key)
      then record { registers = set hll.registers (hll_idx key) (key_rank key) }
      else hll
