-- ===== src/Sketch/Cuckoo/Kicks.antt =====
-- A round of kicks loses sight of no fingerprint but the one that is left over at its end.
use agent_guard_fast_path.Common.{
  ℕ, zero, suc, ◌+◌, ◌%◌, ◌<◌, ◌≡◌, ◌≢◌, refl, ◌∙◌, Bool, true, false, [], arith, ◌⊎◌, inl, inr,
  ◌==◌, if◌then◌else◌, get_or, set, length-set, Bool-cases, u64,
}
use native.Mathlib.Decide.{ℕ_discrete}
use agent_guard_fast_path.Hash.{mix64}
use agent_guard_fast_path.Sketch.Cuckoo.{
  Cuckoo, cuckoo_buckets, cuckoo_slots, cuckoo_alt_index, row_contains, cuckoo_bucket_insert,
  with_row, kick_rounds,
}
use agent_guard_fast_path.Sketch.Cuckoo.Buckets.{
  alt_index-lt, row_contains-set, row_contains-set_self,
}
use agent_guard_fast_path.Sketch.Cuckoo.Holds.{
  row_at, IsValid, Holds, Own, with_row_at, with_row-IsValid, Own-Holds, Own-alt,
  bucket_insert-IsValid, bucket_insert_new, bucket_insert_keep,
}

-- The fingerprint that has no place when the last kick has failed.
pub kick_lost : ℕ → ℕ → ℕ → ℕ → Cuckoo → ℕ
kick_lost zero kick idx fp cf = fp
kick_lost (suc left) kick idx fp cf =
    let row = get_or cf.buckets idx [] in
    let slot = mix64 (u64 (fp + kick)) % cuckoo_slots in
    let old = get_or row slot 0 in
    let cf1 = with_row cf idx (set row slot fp) in
    let idx1 = cuckoo_alt_index idx old in
    let attempt = cuckoo_bucket_insert cf1 idx1 old in
    let rest = kick_lost left (kick + 1) idx1 old attempt.1 in if attempt.0 then 0 else rest

-- Fingerprint `f` of bucket `i` is held, or it is the one in hand, `fp`, about to go to bucket `idx`.
abbrev pub Around : Cuckoo → ℕ → ℕ → ℕ → ℕ → Type 0
Around cf idx fp f i = Holds cf f i ⊎ ((fp ≡ f) × Own idx f i)

module _ (cf : Cuckoo) (idx fp slot : ℕ) (v : IsValid cf) (lt : idx < cuckoo_buckets)
    (in_row : slot < cuckoo_slots) where
  abbrev old : ℕ
  old = get_or (row_at cf idx) slot 0

  abbrev pub swapped : Cuckoo
  swapped = with_row cf idx (set (row_at cf idx) slot fp)

  pub swapped-IsValid : IsValid swapped
  swapped-IsValid =
      with_row-IsValid cf idx (set (row_at cf idx) slot fp) v lt
        (length-set (row_at cf idx) slot fp ∙ v.all_slots idx lt)

  swapped_at :
      (j : ℕ) → row_at swapped j ≡ (if idx == j then set (row_at cf idx) slot fp else row_at cf j)
  swapped_at j = with_row_at cf idx j (set (row_at cf idx) slot fp) v lt

  swap_elsewhere :
      (b f i : ℕ) → idx ≢ b → Own b f i → row_contains (row_at cf b) f ≡ true → Holds swapped f i
  swap_elsewhere b f i ne own c = Own-Holds swapped b f i own (ground (arith, swapped_at b))

  swap_here :
      (f i : ℕ)
      → i < cuckoo_buckets
      → Own idx f i
      → row_contains (row_at cf idx) f ≡ true
      → Around swapped (cuckoo_alt_index idx old) old f i
  swap_here f i i_lt own c = elim (row_contains-set (row_at cf idx) slot fp f c) [
    | inl kept ↦ inl (Own-Holds swapped idx f i own (ground (arith, swapped_at idx)))
    | inr lost ↦ inr (lost, rw lost (Own-alt idx f i i_lt own))
  ]

  swap_held :
      (b f i : ℕ)
      → i < cuckoo_buckets
      → Own b f i
      → row_contains (row_at cf b) f ≡ true
      → Around swapped (cuckoo_alt_index idx old) old f i
  swap_held b f i i_lt own c = elim (ℕ_discrete idx b) [
    | yes e ↦ swap_here f i i_lt (rw e own) (rw e c)
    | no ne ↦ inl (swap_elsewhere b f i ne own c)
  ]

  -- A swap loses sight of no fingerprint.
  swap-Around :
      (f i : ℕ)
      → i < cuckoo_buckets
      → Around cf idx fp f i
      → Around swapped (cuckoo_alt_index idx old) old f i
  swap-Around f i i_lt (inl (inl h)) = swap_held i f i i_lt (inl refl) h
  swap-Around f i i_lt (inl (inr h)) = swap_held (cuckoo_alt_index i f) f i i_lt (inr refl) h
  swap-Around f i i_lt (inr (e, own)) = inl (
      Own-Holds swapped idx f i own (
        ground (
          arith,
          swapped_at idx,
          row_contains-set_self (row_at cf idx) slot fp,
          v.all_slots idx lt,
        )))

-- Where a failed insertion leaves fingerprint `f` of bucket `i`: it is held, or it is the one that
-- the failure lost.
abbrev pub Left : Bool × Cuckoo → ℕ → ℕ → ℕ → Type 0
Left result lost f i = Holds result.1 f i ⊎ ((result.0 ≡ false) × (lost ≡ f))

-- The fingerprint in hand is put into its bucket, if that has room.
pub place_lem :
    (cf : Cuckoo) (idx fp f i : ℕ)
    → IsValid cf
    → idx < cuckoo_buckets
    → f ≢ 0
    → Around cf idx fp f i
    → (cuckoo_bucket_insert cf idx fp).0 ≡ true
    → Holds (cuckoo_bucket_insert cf idx fp).1 f i
place_lem cf idx fp f i v lt ne (inl h) placed = bucket_insert_keep cf idx fp v lt f i ne h
place_lem cf idx fp f i v lt ne (inr (e, own)) placed =
    Own-Holds (cuckoo_bucket_insert cf idx fp).1 idx f i own
      (rw (← e) (bucket_insert_new cf idx fp v lt placed))

pub insert-Around :
    (cf : Cuckoo) (idx fp f i : ℕ)
    → IsValid cf
    → idx < cuckoo_buckets
    → f ≢ 0
    → Around cf idx fp f i
    → Around (cuckoo_bucket_insert cf idx fp).1 idx fp f i
insert-Around cf idx fp f i v lt ne (inl h) = inl (bucket_insert_keep cf idx fp v lt f i ne h)
insert-Around cf idx fp f i v lt ne (inr h) = inr h

pub kick_rounds_lem :
    (left kick idx fp : ℕ) (cf : Cuckoo) (f i : ℕ)
    → IsValid cf
    → idx < cuckoo_buckets
    → i < cuckoo_buckets
    → f ≢ 0
    → Around cf idx fp f i
    → IsValid (kick_rounds left kick idx fp cf).1
      × Left (kick_rounds left kick idx fp cf) (kick_lost left kick idx fp cf) f i
unfolding kick_rounds kick_lost
kick_rounds_lem zero kick idx fp cf f i v lt i_lt ne (inl h) = (v, inl h)
kick_rounds_lem zero kick idx fp cf f i v lt i_lt ne (inr (e, own)) = (v, inr (refl, e))
kick_rounds_lem (suc left) kick idx fp cf f i v lt i_lt ne around =
    let slot = mix64 (u64 (fp + kick)) % cuckoo_slots in
    let in_row : slot < cuckoo_slots = omega arith in
    let old1 = get_or (row_at cf idx) slot 0 in
    let cf1 = with_row cf idx (set (row_at cf idx) slot fp) in
    let idx1 = cuckoo_alt_index idx old1 in
    let v1 = swapped-IsValid cf idx fp slot v lt in_row in
    let around1 = swap-Around cf idx fp slot v lt in_row f i i_lt around in
    let idx1_lt = alt_index-lt idx old1 in
    let cf2 = (cuckoo_bucket_insert cf1 idx1 old1).1 in
    let v2 = bucket_insert-IsValid cf1 idx1 old1 v1 idx1_lt in
    elim (Bool-cases ((cuckoo_bucket_insert cf1 idx1 old1).0)) [
      | inl placed ↦ rw placed (v2, inl (place_lem cf1 idx1 old1 f i v1 idx1_lt ne around1 placed))
      | inr full ↦ rw full (
          kick_rounds_lem left (kick + 1) idx1 old1 cf2 f i v2 idx1_lt i_lt ne
            (insert-Around cf1 idx1 old1 f i v1 idx1_lt ne around1))
    ]
