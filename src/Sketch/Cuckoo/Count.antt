-- ===== src/Sketch/Cuckoo/Count.antt =====
-- The counter of a Cuckoo filter is the number of its occupied slots.
use agent_guard_fast_path.Common.{
  ℕ, zero, suc, ◌+◌, ◌*◌, ◌%◌, ◌≤◌, ◌<◌, ◌≡◌, ◌≢◌, refl, Bool, true, false, false≢true, List, [],
  ◌∷◌, Str, arith, inl, inr, ◌==◌, if◌then◌else◌, is_empty, Bool-cases, length, get_or, set, u64,
}
use agent_guard_fast_path.Hash.{mix64}
use agent_guard_fast_path.Sketch.Cuckoo.{
  Cuckoo, cuckoo_buckets, cuckoo_slots, max_kicks, cuckoo_fingerprint, cuckoo_index1,
  cuckoo_alt_index, row_contains, cuckoo_bucket_insert, with_row, kick_rounds, cuckoo_insert,
}
use agent_guard_fast_path.Sketch.Cuckoo.Buckets.{
  alt_index-lt, fingerprint_ne_zero, index1-lt, replaced,
}
use agent_guard_fast_path.Sketch.Cuckoo.Holds.{row_at, IsValid, bucket_insert_cases}
use agent_guard_fast_path.Sketch.Cuckoo.Kicks.{swapped-IsValid}
use agent_guard_fast_path.Sketch.Cuckoo.Membership.{start, start-lt, insert_cases, insert_empty}

unfoldable pub row_used : List ℕ → ℕ
row_used [] = 0
row_used (x ∷ row) = (if x == 0 then 0 else 1) + row_used row

unfoldable pub used : List (List ℕ) → ℕ
used [] = 0
used (row ∷ rows) = row_used row + used rows

-- Filling a free slot.
row_used-replaced_free :
    (fp : ℕ) (row : List ℕ)
    → fp ≢ 0
    → row_contains row 0 ≡ true
    → row_used (replaced 0 fp row) ≡ row_used row + 1
unfolding row_used replaced row_contains
row_used-replaced_free fp [] ne h = absurd (false≢true h)
row_used-replaced_free fp (x ∷ row) ne h = ground (arith, row_used-replaced_free fp row)

-- Freeing a slot.
pub row_used-replaced_full :
    (fp : ℕ) (row : List ℕ)
    → fp ≢ 0
    → row_contains row fp ≡ true
    → row_used (replaced fp 0 row) + 1 ≡ row_used row
unfolding row_used replaced row_contains
row_used-replaced_full fp [] ne h = absurd (false≢true h)
row_used-replaced_full fp (x ∷ row) ne h = ground (arith, row_used-replaced_full fp row)

-- Overwriting a slot of a full bucket leaves it full.
row_full-set :
    (row : List ℕ) (s v : ℕ)
    → v ≢ 0
    → row_contains row 0 ≡ false
    → (row_contains (set row s v) 0 ≡ false)
      × (row_used (set row s v) ≡ row_used row)
      × (s < length row → get_or row s 0 ≢ 0)
unfolding row_used row_contains
row_full-set [] s v ne h = (refl, refl, λ lt. absurd (omega arith))
row_full-set (x ∷ row) zero v ne h = (ground arith, ground arith, λ lt. ground arith)
row_full-set (x ∷ row) (suc s) v ne h =
    let (a, b, c) = row_full-set row s v ne (ground arith) in
    (ground (arith, a), omega (arith, b), λ lt. c (omega arith))

row_used-le : (row : List ℕ) → row_used row ≤ length row
unfolding row_used
row_used-le [] = omega arith
row_used-le (x ∷ row) = ground (arith, row_used-le row)

pub used-set :
    (rows : List (List ℕ)) (i : ℕ) (row : List ℕ)
    → i < length rows
    → used (set rows i row) + row_used (get_or rows i []) ≡ used rows + row_used row
unfolding used
used-set [] i row h = absurd (omega arith)
used-set (r ∷ rows) zero row h = omega arith
used-set (r ∷ rows) (suc i) row h = omega (arith, used-set rows i row (omega arith))

used-le :
    (rows : List (List ℕ))
    → ((i : ℕ) → i < length rows → length (get_or rows i []) ≡ cuckoo_slots)
    → used rows ≤ length rows * cuckoo_slots
unfolding used
used-le [] h = omega arith
used-le (row ∷ rows) h =
    omega
      (arith, used-le rows (λ i lt. h (suc i) (omega arith)), row_used-le row, h 0 (omega arith))

-- The counter is exact.
abbrev pub IsCounted : Cuckoo → Type 0
IsCounted cf = cf.count ≡ used cf.buckets

module _ (cf : Cuckoo) (v : IsValid cf) where
  pub used-lt : used cf.buckets ≤ 16384
  used-lt = omega (
    arith,
    used-le cf.buckets (λ i lt. v.all_slots i (omega (arith, v.all_buckets))),
    v.all_buckets,
  )

  pub used-with_row :
      (idx : ℕ) (row : List ℕ)
      → idx < cuckoo_buckets
      → used (set cf.buckets idx row) + row_used (row_at cf idx) ≡ used cf.buckets + row_used row
  used-with_row idx row lt = used-set cf.buckets idx row (omega (arith, v.all_buckets))

-- One more in the counter for a success, none for a failure.
abbrev pub Counts : Cuckoo → Bool × Cuckoo → Type 0
Counts cf result = IsCounted result.1 × (result.1.count ≡ cf.count + (if result.0 then 1 else 0))

bucket_insert-Counts :
    (cf : Cuckoo) (idx fp : ℕ)
    → IsValid cf
    → idx < cuckoo_buckets
    → fp ≢ 0
    → IsCounted cf
    → Counts cf (cuckoo_bucket_insert cf idx fp)
bucket_insert-Counts cf idx fp v lt ne c = elim (Bool-cases (row_contains (row_at cf idx) 0)) [
  | inl room ↦
      rw (bucket_insert_cases, room)
        (omega (
          arith,
          c,
          used-lt cf v,
          used-with_row cf v idx (replaced 0 fp (row_at cf idx)) lt,
          row_used-replaced_free fp (row_at cf idx) ne room,
        ))
  | inr full ↦ rw (bucket_insert_cases, full) (omega (arith, c))
]

bucket_insert_full :
    (cf : Cuckoo) (idx fp : ℕ)
    → (cuckoo_bucket_insert cf idx fp).0 ≡ false
    → (row_contains (row_at cf idx) 0 ≡ false) × ((cuckoo_bucket_insert cf idx fp).1 ≡ cf)
bucket_insert_full cf idx fp h = ground (arith, bucket_insert_cases cf idx fp)

kick_rounds-Counts :
    (left kick idx fp : ℕ) (cf : Cuckoo)
    → IsValid cf
    → idx < cuckoo_buckets
    → fp ≢ 0
    → row_contains (row_at cf idx) 0 ≡ false
    → IsCounted cf
    → Counts cf (kick_rounds left kick idx fp cf)
unfolding kick_rounds
kick_rounds-Counts zero kick idx fp cf v lt ne full c = omega (arith, c)
kick_rounds-Counts (suc left) kick idx fp cf v lt ne full c =
    let slot = mix64 (u64 (fp + kick)) % cuckoo_slots in
    let in_row : slot < cuckoo_slots = omega arith in
    let old = get_or (row_at cf idx) slot 0 in
    let row = set (row_at cf idx) slot fp in
    let cf1 = with_row cf idx row in
    let idx1 = cuckoo_alt_index idx old in
    let lt1 = alt_index-lt idx old in
    let v1 = swapped-IsValid cf idx fp slot v lt in_row in
    let (_, same, old_ne) = row_full-set (row_at cf idx) slot fp ne full in
    let c1 : IsCounted cf1 = omega (arith, c, same, used-with_row cf v idx row lt) in
    let old_some = old_ne (omega (arith, v.all_slots idx lt)) in
    elim (Bool-cases ((cuckoo_bucket_insert cf1 idx1 old).0)) [
      | inl placed ↦ rw placed (rw placed at (bucket_insert-Counts cf1 idx1 old v1 lt1 old_some c1))
      | inr failed ↦
          let (full1, unchanged) = bucket_insert_full cf1 idx1 old failed in
          rw (failed, unchanged)
            (kick_rounds-Counts left (kick + 1) idx1 old cf1 v1 lt1 old_some full1 c1)
    ]

-- Where kicks begin, the bucket is full.
start_full :
    (cf : Cuckoo) (value : Str)
    → row_contains (row_at cf (cuckoo_index1 value)) 0 ≡ false
    → row_contains (row_at cf (cuckoo_alt_index (cuckoo_index1 value) (cuckoo_fingerprint value))) 0
      ≡ false
    → row_contains (row_at cf (start value)) 0 ≡ false
start_full cf value a b = ground arith

-- The counter of a filter stays exact under `cuckoo_insert`: it grows by one on a success and is the
-- same after a failure, which has replaced fingerprints and lost one.
pub cuckoo_insert-Counts :
    (cf : Cuckoo) (value : Str) → IsValid cf → IsCounted cf → Counts cf (cuckoo_insert cf value)
cuckoo_insert-Counts cf value v c = elim (Bool-cases (is_empty value)) [
  | inl e ↦ rw (insert_empty cf value e) (omega (arith, c))
  | inr ne ↦
      let i1 = cuckoo_index1 value in
      let fp = cuckoo_fingerprint value in
      let i2 = cuckoo_alt_index i1 fp in
      let some_fp = fingerprint_ne_zero value in
      let lt1 = index1-lt value in
      let lt2 = alt_index-lt i1 fp in
      rw (insert_cases cf value ne) elim (Bool-cases ((cuckoo_bucket_insert cf i1 fp).0)) [
        | inl ok ↦ rw ok (rw ok at (bucket_insert-Counts cf i1 fp v lt1 some_fp c))
        | inr full ↦
            let (full1, same1) = bucket_insert_full cf i1 fp full in
            rw (full, same1)
              elim (Bool-cases ((cuckoo_bucket_insert cf i2 fp).0)) [
                | inl ok ↦ rw ok (rw ok at (bucket_insert-Counts cf i2 fp v lt2 some_fp c))
                | inr again ↦
                    let (full2, same2) = bucket_insert_full cf i2 fp again in
                    rw (again, same2)
                      (kick_rounds-Counts max_kicks 0 (start value) fp cf v (start-lt cf value)
                        some_fp (start_full cf value full1 full2) c)
              ]
      ]
]
