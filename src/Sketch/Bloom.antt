-- ===== src/Sketch/Bloom.antt =====
-- The Bloom filter of src/agfast_parts/sketches.c. A failing `calloc` ends the program.
pub mod Membership
mod Tests
use agent_guard_fast_path.Common.{
  ℕ, zero, suc, ◌+◌, ◌*◌, ◌/◌, ◌%◌, ◌^◌, Bool, true, false, not, List, Str, bit_and, bit_or,
  bit_xor, u8, u64, ◌==◌, if◌then◌else◌, is_empty, get_or, set, replicate,
}
use agent_guard_fast_path.Hash.{fnv1a64, mix64}

-- `bloom_t`
pub record Bloom : Type 0 where
  pub bits : List ℕ
  pub bit_count : ℕ
  pub hashes : ℕ
  pub inserted : ℕ

unfoldable pub bloom_init : ℕ → ℕ → Bloom
bloom_init bit_count hashes = record {
  bits = replicate ((bit_count + 7) / 8) 0;
  bit_count = bit_count;
  hashes = hashes;
  inserted = 0;
}

unfoldable pub bloom_set_bit : List ℕ → ℕ → List ℕ
bloom_set_bit bits pos =
    set bits (pos / 8) (u8 (bit_or (get_or bits (pos / 8) 0) (u8 (2 ^ (pos % 8)))))

unfoldable pub bloom_get_bit : List ℕ → ℕ → Bool
bloom_get_bit bits pos = not (bit_and (get_or bits (pos / 8) 0) (u8 (2 ^ (pos % 8))) == 0)

-- `h1` and `h2` of a value, and the position that round `i` derives from them.
abbrev pub bloom_h1 : Str → ℕ
bloom_h1 value = fnv1a64 value

abbrev pub bloom_h2 : Str → ℕ
bloom_h2 value = mix64 (bit_xor (fnv1a64 value) 0x9e3779b97f4a7c15)

unfoldable pub bloom_pos : ℕ → Str → ℕ → ℕ
bloom_pos bit_count value i =
    u64 (bloom_h1 value + u64 (i * bloom_h2 value) + u64 (i * i)) % bit_count

-- The rounds from `i` on, with `left` of them to go.
pub add_rounds : ℕ → Str → ℕ → ℕ → List ℕ → List ℕ
add_rounds bit_count value zero i bits = bits
add_rounds bit_count value (suc left) i bits =
    add_rounds bit_count value left (i + 1) (bloom_set_bit bits (bloom_pos bit_count value i))

unfoldable pub bloom_add : Bloom → Str → Bloom
unfolding add_rounds bloom_set_bit bloom_pos
bloom_add b value = if is_empty value then b else record b {
  bits = add_rounds b.bit_count value b.hashes 0 b.bits;
  inserted = u64 (b.inserted + 1);
}

pub check_rounds : ℕ → Str → ℕ → ℕ → List ℕ → Bool
check_rounds bit_count value zero i bits = true
check_rounds bit_count value (suc left) i bits =
    let rest = check_rounds bit_count value left (i + 1) bits in
    if bloom_get_bit bits (bloom_pos bit_count value i) then rest else false

unfoldable pub bloom_might_contain : Bloom → Str → Bool
unfolding check_rounds bloom_get_bit bloom_pos
bloom_might_contain b value =
    if is_empty value then false else check_rounds b.bit_count value b.hashes 0 b.bits
