-- ===== src/Sketch/Cuckoo/Delete.antt =====
-- `cuckoo_delete`.
use agent_guard_fast_path.Common.{
  ℕ, ◌+◌, ◌-◌, ◌<◌, ◌≡◌, ◌≢◌, refl, ◌∙◌, Bool, true, false, Str, arith, inl, inr, if◌then◌else◌,
  is_empty, Bool-cases,
}
use agent_guard_fast_path.Sketch.Cuckoo.{
  Cuckoo, cuckoo_buckets, cuckoo_fingerprint, cuckoo_index1, cuckoo_alt_index, row_contains,
  with_row, bucket_delete, cuckoo_delete, cuckoo_contains,
}
use agent_guard_fast_path.Sketch.Cuckoo.Buckets.{
  alt_index-lt, fingerprint_ne_zero, index1-lt, replaced, length-replaced, row_replace_lem,
  row_contains-replaced,
}
use agent_guard_fast_path.Sketch.Cuckoo.Holds.{
  row_at, IsValid, Holds, with_row-IsValid, Holds-with_row,
}
use agent_guard_fast_path.Sketch.Cuckoo.Membership.{contains_cases}
use agent_guard_fast_path.Sketch.Cuckoo.Count.{IsCounted, used-with_row, row_used-replaced_full}

bucket_delete_cases :
    (cf : Cuckoo) (idx fp : ℕ)
    → bucket_delete cf idx fp ≡ (
        if row_contains (row_at cf idx) fp
        then (
          true,
          record (with_row cf idx (replaced fp 0 (row_at cf idx))) { count = cf.count - 1 },
        )
        else (false, cf))
unfolding bucket_delete
bucket_delete_cases cf idx fp = ground (arith, row_replace_lem fp 0 (row_at cf idx))

-- What a deletion promises: the filter stays valid and exactly counted, a success takes one from the
-- counter, and no value of another fingerprint is lost.
pub record Deletes (cf : Cuckoo) (fp : ℕ) (result : Bool × Cuckoo) : Type 0 where
  pub valid : IsValid result.1
  pub counted : IsCounted result.1
  pub taken : result.1.count + (if result.0 then 1 else 0) ≡ cf.count
  pub others : (f i : ℕ) → f ≢ fp → Holds cf f i → Holds result.1 f i

bucket_delete-Deletes :
    (cf : Cuckoo) (idx fp : ℕ)
    → IsValid cf
    → idx < cuckoo_buckets
    → fp ≢ 0
    → IsCounted cf
    → Deletes cf fp (bucket_delete cf idx fp)
bucket_delete-Deletes cf idx fp v lt ne c = elim (Bool-cases (row_contains (row_at cf idx) fp)) [
  | inl there ↦
      let row = replaced fp 0 (row_at cf idx) in
      let freed = row_used-replaced_full fp (row_at cf idx) ne there in
      let moved = used-with_row cf v idx row lt in
      let w =
        with_row-IsValid cf idx row v lt
          (length-replaced fp 0 (row_at cf idx) ∙ v.all_slots idx lt) in
      rw (bucket_delete_cases, there)
        (record {
          valid = record { all_buckets = w.all_buckets; all_slots = w.all_slots };
          counted = omega (arith, c, freed, moved);
          taken = omega (arith, c, freed, moved);
          others = λ f i other h.
              Holds-with_row cf idx row f i v lt
                (row_contains-replaced fp 0 (row_at cf idx) f other) h;
        })
  | inr absent ↦
      rw (bucket_delete_cases, absent)
        (record { valid = v; counted = c; taken = omega arith; others = λ f i other h. h })
]

bucket_delete_result :
    (cf : Cuckoo) (idx fp : ℕ) → (bucket_delete cf idx fp).0 ≡ row_contains (row_at cf idx) fp
bucket_delete_result cf idx fp = ground (arith, bucket_delete_cases cf idx fp)

delete_cases :
    (cf : Cuckoo) (value : Str)
    → cuckoo_delete cf value ≡ (
        if is_empty value
        then (false, cf)
        else if (bucket_delete cf (cuckoo_index1 value) (cuckoo_fingerprint value)).0
        then bucket_delete cf (cuckoo_index1 value) (cuckoo_fingerprint value)
        else bucket_delete cf
            (cuckoo_alt_index (cuckoo_index1 value) (cuckoo_fingerprint value))
            (cuckoo_fingerprint value))
unfolding cuckoo_delete
delete_cases cf value = refl

-- `cuckoo_delete` succeeds exactly on the values that the filter reports, and promises `Deletes`.
pub cuckoo_delete_lem :
    (cf : Cuckoo) (value : Str)
    → IsValid cf
    → IsCounted cf
    → ((cuckoo_delete cf value).0 ≡ cuckoo_contains cf value)
      × Deletes cf (cuckoo_fingerprint value) (cuckoo_delete cf value)
unfolding bucket_delete
cuckoo_delete_lem cf value v c = elim (Bool-cases (is_empty value)) [
  | inl e ↦
      rw (delete_cases, contains_cases, e)
        (refl, record { valid = v; counted = c; taken = omega arith; others = λ f i other h. h })
  | inr ne ↦
      let i1 = cuckoo_index1 value in
      let fp = cuckoo_fingerprint value in
      let i2 = cuckoo_alt_index i1 fp in
      let some_fp = fingerprint_ne_zero value in
      (
        ground (
          arith,
          delete_cases cf value,
          contains_cases cf value,
          bucket_delete_result cf i1 fp,
          bucket_delete_result cf i2 fp,
        ),
        rw (delete_cases, ne)
            elim (Bool-cases ((bucket_delete cf i1 fp).0)) [
              | inl here ↦ rw here (bucket_delete-Deletes cf i1 fp v (index1-lt value) some_fp c)
              | inr there ↦
                  rw there (bucket_delete-Deletes cf i2 fp v (alt_index-lt i1 fp) some_fp c)
            ],
      )
]
