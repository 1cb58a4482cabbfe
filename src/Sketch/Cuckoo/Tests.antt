-- ===== src/Sketch/Cuckoo/Tests.antt =====
-- The theorems on the Cuckoo filter, at a filter of two file names.
use agent_guard_fast_path.Common.{
  ◌≡◌, ◌≢◌, ◌∙◌, refl, true, inr, Str, [], ◌∷◌, arith, replicate, str_eq,
}
use agent_guard_fast_path.Text.{codes}
use agent_guard_fast_path.Hash.{fnv1a64, mix64}
use agent_guard_fast_path.StringList.{StringList, contains, list_contains_exact}
use agent_guard_fast_path.Sketch.Cuckoo.{
  cuckoo_init, cuckoo_insert, cuckoo_contains, cuckoo_delete, cuckoo_fingerprint, cuckoo_alt_index,
  cuckoo_index1, cuckoo_load_from_list, load_items, cuckoo_bucket_insert,
}
use agent_guard_fast_path.Sketch.Cuckoo.Buckets.{alt_index_involutive, fingerprint_ne_zero}
use agent_guard_fast_path.Sketch.Cuckoo.Membership.{
  cuckoo_lost, lost_none, cuckoo_insert_success, cuckoo_insert_failure,
}
use agent_guard_fast_path.Sketch.Cuckoo.Count.{Counts, cuckoo_insert-Counts}
use agent_guard_fast_path.Sketch.Cuckoo.Delete.{Deletes, cuckoo_delete_lem}
use agent_guard_fast_path.Sketch.Cuckoo.Load.{
  init-IsValid, init-IsCounted, cuckoo_load_from_list_complete,
}

abbrev shadow : Str
shadow = codes "/etc/shadow"

inserts : (cuckoo_insert cuckoo_init shadow).0 ≡ true
unfolding cuckoo_insert cuckoo_bucket_insert cuckoo_init replicate cuckoo_fingerprint cuckoo_index1
    fnv1a64 mix64
inserts = refl

abbrev watch : StringList
watch = record { items = shadow ∷ []; cap = 16 }

alt_index_involutive_example : cuckoo_alt_index (cuckoo_alt_index 17 0xbeef) 0xbeef ≡ 17
alt_index_involutive_example = alt_index_involutive 17 0xbeef (omega arith)

cuckoo_insert_success_example :
    (cuckoo_contains (cuckoo_insert cuckoo_init shadow).1 shadow ≡ true)
    × ((w : Str)
        → cuckoo_contains cuckoo_init w ≡ true
        → cuckoo_contains (cuckoo_insert cuckoo_init shadow).1 w ≡ true)
cuckoo_insert_success_example = cuckoo_insert_success cuckoo_init shadow init-IsValid inserts

first_bucket :
    (cuckoo_bucket_insert cuckoo_init (cuckoo_index1 shadow) (cuckoo_fingerprint shadow)).0 ≡ true
unfolding cuckoo_bucket_insert cuckoo_init replicate cuckoo_fingerprint cuckoo_index1 fnv1a64 mix64
first_bucket = refl

shadow_kept : cuckoo_fingerprint shadow ≢ cuckoo_lost cuckoo_init shadow
shadow_kept e = fingerprint_ne_zero shadow (e ∙ lost_none cuckoo_init shadow first_bucket)

cuckoo_insert_failure_example : cuckoo_contains (cuckoo_insert cuckoo_init shadow).1 shadow ≡ true
cuckoo_insert_failure_example =
    cuckoo_insert_failure cuckoo_init shadow shadow init-IsValid refl refl (inr refl) shadow_kept

cuckoo_insert-Counts_example : Counts cuckoo_init (cuckoo_insert cuckoo_init shadow)
cuckoo_insert-Counts_example = cuckoo_insert-Counts cuckoo_init shadow init-IsValid init-IsCounted

cuckoo_delete_lem_example :
    ((cuckoo_delete cuckoo_init shadow).0 ≡ cuckoo_contains cuckoo_init shadow)
    × Deletes cuckoo_init (cuckoo_fingerprint shadow) (cuckoo_delete cuckoo_init shadow)
cuckoo_delete_lem_example = cuckoo_delete_lem cuckoo_init shadow init-IsValid init-IsCounted

watched : list_contains_exact watch shadow ≡ true
unfolding list_contains_exact contains str_eq
watched = refl

all_counted : (cuckoo_load_from_list watch).count ≡ 1
unfolding cuckoo_load_from_list load_items cuckoo_init
all_counted =
    let counted = (cuckoo_insert-Counts cuckoo_init shadow init-IsValid init-IsCounted).1 in
    rw inserts at counted

cuckoo_load_from_list_complete_example : cuckoo_contains (cuckoo_load_from_list watch) shadow ≡ true
cuckoo_load_from_list_complete_example =
    cuckoo_load_from_list_complete watch shadow all_counted watched
