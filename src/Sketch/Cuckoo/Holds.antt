-- ===== src/Sketch/Cuckoo/Holds.antt =====
-- The fingerprints that the two buckets of a value hold, and how one changed bucket changes them.
use agent_guard_fast_path.Common.{
  ℕ, ◌+◌, ◌<◌, ◌≡◌, ◌≢◌, ap, ◌∙◌, true, false, List, [], arith, ◌⊎◌, inl, inr, ◌==◌, if◌then◌else◌,
  length, get_or, get_or-set, length-set, Bool-cases, u64,
}
use agent_guard_fast_path.Sketch.Cuckoo.{
  Cuckoo, cuckoo_buckets, cuckoo_slots, cuckoo_alt_index, row_contains, cuckoo_bucket_insert,
  with_row,
}
use agent_guard_fast_path.Sketch.Cuckoo.Buckets.{
  alt_index_involutive, replaced, row_replace_lem, length-replaced, row_contains-replaced_self,
  row_contains-replaced,
}

abbrev pub row_at : Cuckoo → ℕ → List ℕ
row_at cf i = get_or cf.buckets i []

-- The array has all its buckets, each with all its slots.
pub record IsValid (cf : Cuckoo) : Type 0 where
  pub all_buckets : length cf.buckets ≡ cuckoo_buckets
  pub all_slots : (i : ℕ) → i < cuckoo_buckets → length (row_at cf i) ≡ cuckoo_slots

-- The fingerprint `f` is in bucket `i` or in its other bucket.
abbrev pub Holds : Cuckoo → ℕ → ℕ → Type 0
Holds cf f i =
    (row_contains (row_at cf i) f ≡ true)
    ⊎ (row_contains (row_at cf (cuckoo_alt_index i f)) f ≡ true)

-- Bucket `idx` is one of the two of `f` and `i`.
abbrev pub Own : ℕ → ℕ → ℕ → Type 0
Own idx f i = (idx ≡ i) ⊎ (idx ≡ cuckoo_alt_index i f)

pub with_row_at :
    (cf : Cuckoo) (idx j : ℕ) (row : List ℕ)
    → IsValid cf
    → idx < cuckoo_buckets
    → row_at (with_row cf idx row) j ≡ (if idx == j then row else row_at cf j)
with_row_at cf idx j row v h = get_or-set cf.buckets idx j row [] (omega (arith, v.all_buckets))

pub with_row-IsValid :
    (cf : Cuckoo) (idx : ℕ) (row : List ℕ)
    → IsValid cf
    → idx < cuckoo_buckets
    → length row ≡ cuckoo_slots
    → IsValid (with_row cf idx row)
with_row-IsValid cf idx row v h e = record {
  all_buckets = length-set cf.buckets idx row ∙ v.all_buckets;
  all_slots = λ i lt. ground (arith, with_row_at cf idx i row v h, v.all_slots i lt);
}

-- A change of one bucket keeps what it keeps of that bucket.
pub Holds-with_row :
    (cf : Cuckoo) (idx : ℕ) (row : List ℕ) (f i : ℕ)
    → IsValid cf
    → idx < cuckoo_buckets
    → (row_contains (row_at cf idx) f ≡ true → row_contains row f ≡ true)
    → Holds cf f i
    → Holds (with_row cf idx row) f i
Holds-with_row cf idx row f i v h keep (inl a) =
    inl
      (ground (arith, with_row_at cf idx i row v h, ap (λ (t : ℕ). row_at cf t) {x = idx} {y = i}))
Holds-with_row cf idx row f i v h keep (inr b) = inr (
    ground (
      arith,
      with_row_at cf idx (cuckoo_alt_index i f) row v h,
      ap (λ (t : ℕ). row_at cf t) {x = idx} {y = cuckoo_alt_index i f},
    ))

pub Own-Holds :
    (cf : Cuckoo) (idx f i : ℕ) → Own idx f i → row_contains (row_at cf idx) f ≡ true → Holds cf f i
Own-Holds cf idx f i (inl e) h = inl (rw (← e) h)
Own-Holds cf idx f i (inr e) h = inr (rw (← e) h)

pub Own-alt : (idx f i : ℕ) → i < cuckoo_buckets → Own idx f i → Own (cuckoo_alt_index idx f) f i
Own-alt idx f i h (inl e) = inr (rw e)
Own-alt idx f i h (inr e) = inl (rw e (alt_index_involutive i f h))

-- `cuckoo_bucket_insert` by the free slots of its bucket.
pub bucket_insert_cases :
    (cf : Cuckoo) (idx fp : ℕ)
    → cuckoo_bucket_insert cf idx fp ≡ (
        if row_contains (row_at cf idx) 0
        then (
          true,
          record (with_row cf idx (replaced 0 fp (row_at cf idx))) { count = u64 (cf.count + 1) },
        )
        else (false, cf))
unfolding cuckoo_bucket_insert
bucket_insert_cases cf idx fp = ground (arith, row_replace_lem 0 fp (row_at cf idx))

module _ (cf : Cuckoo) (idx fp : ℕ) (v : IsValid cf) (lt : idx < cuckoo_buckets) where
  abbrev inserted_row : List ℕ
  inserted_row = replaced 0 fp (row_at cf idx)

  abbrev filled : Cuckoo
  filled = record (with_row cf idx inserted_row) { count = u64 (cf.count + 1) }

  filled-IsValid : IsValid filled
  filled-IsValid =
      let w =
        with_row-IsValid cf idx inserted_row v lt
          (length-replaced 0 fp (row_at cf idx) ∙ v.all_slots idx lt) in
      record { all_buckets = w.all_buckets; all_slots = w.all_slots }

  pub bucket_insert-IsValid : IsValid (cuckoo_bucket_insert cf idx fp).1
  bucket_insert-IsValid = elim (Bool-cases (row_contains (row_at cf idx) 0)) [
    | inl room ↦ rw (bucket_insert_cases, room) filled-IsValid
    | inr full ↦ rw (bucket_insert_cases, full) v
  ]

  -- The fingerprint is in the bucket after a success.
  pub bucket_insert_new :
      (cuckoo_bucket_insert cf idx fp).0 ≡ true
      → row_contains (row_at (cuckoo_bucket_insert cf idx fp).1 idx) fp ≡ true
  bucket_insert_new = rw bucket_insert_cases (
      ground (
        arith,
        with_row_at cf idx idx inserted_row v lt,
        row_contains-replaced_self 0 fp (row_at cf idx),
      ))

  -- And none that was held is lost, whatever the result.
  pub bucket_insert_keep :
      (f i : ℕ) → f ≢ 0 → Holds cf f i → Holds (cuckoo_bucket_insert cf idx fp).1 f i
  bucket_insert_keep f i ne h = elim (Bool-cases (row_contains (row_at cf idx) 0)) [
    | inl room ↦
        rw (bucket_insert_cases, room)
          (Holds-with_row cf idx inserted_row f i v lt
            (row_contains-replaced 0 fp (row_at cf idx) f ne) h)
    | inr full ↦ rw (bucket_insert_cases, full) h
  ]
