-- ===== src/Sketch/Bloom/Membership.antt =====
-- The Bloom filter has no false negatives.
use agent_guard_fast_path.Common.{
  ℕ, zero, suc, ◌+◌, ◌*◌, ◌/◌, ◌%◌, ◌^◌, ◌≤◌, ◌<◌, max, ◌≡◌, refl, ◌∙◌, true, false, not, List, Str,
  arith, u8, bit_or, ◌==◌, if◌then◌else◌, is_empty, length, get_or, length-set, get_or-set,
  get_or-replicate, length-replicate, replicate, bit, bit-or, bit-pow, bit_test, bit-byte,
  bit-le-one, bit-zero,
}
use agent_guard_fast_path.Sketch.Bloom.{
  Bloom, bloom_init, bloom_set_bit, bloom_get_bit, bloom_pos, add_rounds, bloom_add, check_rounds,
  bloom_might_contain,
}

-- The array has a bit for each position.
pub record IsValid (b : Bloom) : Type 0 where
  pub positive : 0 < b.bit_count
  pub room : b.bit_count ≤ 8 * length b.bits

mask_byte : (k : ℕ) → k < 8 → u8 (2 ^ k) ≡ 2 ^ k
mask_byte zero h = refl
mask_byte (suc zero) h = refl
mask_byte (suc (suc zero)) h = refl
mask_byte (suc (suc (suc zero))) h = refl
mask_byte (suc (suc (suc (suc zero)))) h = refl
mask_byte (suc (suc (suc (suc (suc zero))))) h = refl
mask_byte (suc (suc (suc (suc (suc (suc zero)))))) h = refl
mask_byte (suc (suc (suc (suc (suc (suc (suc zero))))))) h = refl
mask_byte (suc (suc (suc (suc (suc (suc (suc (suc k)))))))) h = absurd (omega arith)

-- `bloom_get_bit` reads bit `pos % 8` of byte `pos / 8`.
get_bit_lem :
    (bits : List ℕ) (pos : ℕ)
    → bloom_get_bit bits pos ≡ not (bit (get_or bits (pos / 8) 0) (pos % 8) == 0)
unfolding bloom_get_bit
get_bit_lem bits pos =
    rw (mask_byte (pos % 8) (omega arith), bit_test (pos % 8) (get_or bits (pos / 8) 0))

-- What is stored into a byte has the bit of the mask and every bit that was there.
bit_stored :
    (b j k : ℕ)
    → j < 8
    → k < 8
    → bit (u8 (bit_or b (u8 (2 ^ j)))) k ≡ max (bit b k) (if j == k then 1 else 0)
bit_stored b j k hj hk = rw (mask_byte j hj, bit-byte k _ hk, bit-or, bit-pow)

-- Setting a bit sets that bit and changes no other.
pub get_bit-set_bit :
    (bits : List ℕ) (p q : ℕ)
    → p < 8 * length bits
    → bloom_get_bit (bloom_set_bit bits p) q ≡ (if p == q then true else bloom_get_bit bits q)
unfolding bloom_set_bit
get_bit-set_bit bits p q h =
    let old = get_or bits (p / 8) 0 in
    ground (
      arith,
      get_bit_lem (bloom_set_bit bits p) q,
      get_bit_lem bits q,
      get_or-set bits (p / 8) (q / 8) (u8 (bit_or old (u8 (2 ^ (p % 8))))) 0,
      bit_stored old (p % 8) (q % 8),
      bit-le-one old (q % 8),
    )

length-set_bit : (bits : List ℕ) (p : ℕ) → length (bloom_set_bit bits p) ≡ length bits
unfolding bloom_set_bit
length-set_bit bits p = length-set bits (p / 8) _

module _ (n : ℕ) (positive : 0 < n) where
  pos-lt : (value : Str) (i : ℕ) → bloom_pos n value i < n
  unfolding bloom_pos
  pos-lt value i = omega arith

  length-add_rounds :
      (value : Str) (left i : ℕ) (bits : List ℕ)
      → length (add_rounds n value left i bits) ≡ length bits
  unfolding add_rounds
  length-add_rounds value zero i bits = refl
  length-add_rounds value (suc left) i bits =
      length-add_rounds value left (i + 1) (bloom_set_bit bits (bloom_pos n value i))
      ∙ length-set_bit bits (bloom_pos n value i)

  -- A bit that is set stays set.
  add_rounds_keep :
      (value : Str) (left i : ℕ) (bits : List ℕ) (q : ℕ)
      → n ≤ 8 * length bits
      → bloom_get_bit bits q ≡ true
      → bloom_get_bit (add_rounds n value left i bits) q ≡ true
  unfolding add_rounds
  add_rounds_keep value zero i bits q room h = h
  add_rounds_keep value (suc left) i bits q room h =
      let p = bloom_pos n value i in
      add_rounds_keep value left (i + 1) (bloom_set_bit bits p) q (rw (length-set_bit bits p) room)
        (ground (arith, get_bit-set_bit bits p q, pos-lt value i))

  check_rounds_keep :
      (value w : Str) (rounds start left i : ℕ) (bits : List ℕ)
      → n ≤ 8 * length bits
      → check_rounds n w left i bits ≡ true
      → check_rounds n w left i (add_rounds n value rounds start bits) ≡ true
  unfolding check_rounds
  check_rounds_keep value w rounds start zero i bits room h = refl
  check_rounds_keep value w rounds start (suc left) i bits room h = ground (
    arith,
    add_rounds_keep value rounds start bits (bloom_pos n w i),
    check_rounds_keep value w rounds start left (i + 1) bits,
  )

  check-add_rounds :
      (value : Str) (left i : ℕ) (bits : List ℕ)
      → n ≤ 8 * length bits
      → check_rounds n value left i (add_rounds n value left i bits) ≡ true
  unfolding check_rounds add_rounds
  check-add_rounds value zero i bits room = refl
  check-add_rounds value (suc left) i bits room =
      let p = bloom_pos n value i in
      let next = bloom_set_bit bits p in
      let room' : n ≤ 8 * length next = rw (length-set_bit bits p) room in
      ground (
        arith,
        add_rounds_keep value left (i + 1) next p room',
        get_bit-set_bit bits p p,
        pos-lt value i,
        check-add_rounds value left (i + 1) next room',
      )

zeros-get_bit : (m q : ℕ) → bloom_get_bit (replicate m 0) q ≡ false
zeros-get_bit m q =
    ground
      (arith, get_bit_lem (replicate m 0) q, get_or-replicate {A = ℕ} m (q / 8) 0, bit-zero (q % 8))

zeros-check_rounds :
    (n : ℕ) (v : Str) (left i m : ℕ) → 0 < left → check_rounds n v left i (replicate m 0) ≡ false
unfolding check_rounds
zeros-check_rounds n v zero i m h = absurd (omega arith)
zeros-check_rounds n v (suc left) i m h = rw (zeros-get_bit m (bloom_pos n v i))

-- A new filter of at least one bit and one hash has room for its bits, and answers `false` to every
-- value.
pub bloom_init_lem :
    (bit_count hashes : ℕ)
    → 0 < bit_count
    → 0 < hashes
    → IsValid (bloom_init bit_count hashes)
      × ((v : Str) → bloom_might_contain (bloom_init bit_count hashes) v ≡ false)
unfolding bloom_init bloom_might_contain
bloom_init_lem bit_count hashes h some_hash = (
  record { positive = h; room = omega (arith, length-replicate {A = ℕ} ((bit_count + 7) / 8) 0) },
  (λ v. ground (arith, zeros-check_rounds bit_count v hashes 0 ((bit_count + 7) / 8) some_hash)),
)

-- `bloom_add` keeps the filter valid.
pub bloom_add-IsValid : (b : Bloom) (v : Str) → IsValid b → IsValid (bloom_add b v)
unfolding bloom_add
bloom_add-IsValid b v h = record {
  positive = ground (arith, h.positive);
  room = ground (arith, h.room, length-add_rounds b.bit_count h.positive v b.hashes 0 b.bits);
}

-- A value that was added is reported, unless it is the empty string.
pub bloom_might_contain-bloom_add_self :
    (b : Bloom) (v : Str)
    → IsValid b
    → is_empty v ≡ false
    → bloom_might_contain (bloom_add b v) v ≡ true
unfolding bloom_might_contain bloom_add
bloom_might_contain-bloom_add_self b v h ne =
    rw ne (check-add_rounds b.bit_count h.positive v b.hashes 0 b.bits h.room)

-- Adding a value takes no other value away.
pub bloom_might_contain-bloom_add :
    (b : Bloom) (v w : Str)
    → IsValid b
    → bloom_might_contain b w ≡ true
    → bloom_might_contain (bloom_add b v) w ≡ true
unfolding bloom_might_contain bloom_add
bloom_might_contain-bloom_add b v w h found =
    ground
      (arith, h.room, check_rounds_keep b.bit_count h.positive v w b.hashes 0 b.hashes 0 b.bits)
