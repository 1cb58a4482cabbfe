-- ===== src/Sketch/Cuckoo/Load.antt =====
-- `cuckoo_load_from_list`, which drops the results of its insertions.
use agent_guard_fast_path.Common.{
  ℕ, zero, suc, ◌+◌, ◌≤◌, ◌≡◌, refl, sym, true, false≢true, List, [], ◌∷◌, Str, str_eq, str_eq_iff,
  arith, inl, inr, Bool-cases, length, get_or-replicate_in, length-replicate, get_or-replicate_in,
  replicate,
}
use agent_guard_fast_path.StringList.{StringList, contains, list_contains_exact}
use agent_guard_fast_path.Sketch.Cuckoo.{
  Cuckoo, cuckoo_buckets, cuckoo_slots, cuckoo_init, cuckoo_insert, cuckoo_contains, load_items,
  cuckoo_load_from_list,
}
use agent_guard_fast_path.Sketch.Cuckoo.Holds.{IsValid}
use agent_guard_fast_path.Sketch.Cuckoo.Membership.{cuckoo_insert-IsValid, cuckoo_insert_success}
use agent_guard_fast_path.Sketch.Cuckoo.Count.{row_used, used, IsCounted, cuckoo_insert-Counts}

row_used-zeros : (n : ℕ) → row_used (replicate n 0) ≡ 0
unfolding row_used replicate
row_used-zeros zero = refl
row_used-zeros (suc n) = omega (arith, row_used-zeros n)

used-zeros : (n : ℕ) (row : List ℕ) → row_used row ≡ 0 → used (replicate n row) ≡ 0
unfolding used replicate
used-zeros zero row h = refl
used-zeros (suc n) row h = omega (arith, h, used-zeros n row h)

pub init-IsValid : IsValid cuckoo_init
unfolding cuckoo_init
init-IsValid = record {
  all_buckets = length-replicate cuckoo_buckets (replicate cuckoo_slots 0);
  all_slots = λ i lt.
      rw (get_or-replicate_in cuckoo_buckets i (replicate {A = ℕ} cuckoo_slots 0) [] lt)
        (length-replicate cuckoo_slots 0);
}

pub init-IsCounted : IsCounted cuckoo_init
unfolding cuckoo_init
init-IsCounted =
    sym (used-zeros cuckoo_buckets (replicate cuckoo_slots 0) (row_used-zeros cuckoo_slots))

init-count : cuckoo_init.count ≡ 0
unfolding cuckoo_init
init-count = refl

load-le :
    (vs : List Str) (cf : Cuckoo)
    → IsValid cf
    → IsCounted cf
    → IsValid (load_items vs cf)
      × IsCounted (load_items vs cf)
      × ((load_items vs cf).count ≤ cf.count + length vs)
unfolding load_items
load-le [] cf v c = (v, c, omega arith)
load-le (x ∷ vs) cf v c =
    let counts = cuckoo_insert-Counts cf x v c in
    let (v', c', h) = load-le vs (cuckoo_insert cf x).1 (cuckoo_insert-IsValid cf x v) counts.0 in
    (v', c', ground (arith, h, counts))

-- Where every insertion has counted, nothing that was reported is lost, and every item is reported.
load_complete :
    (vs : List Str) (cf : Cuckoo)
    → IsValid cf
    → IsCounted cf
    → (load_items vs cf).count ≡ cf.count + length vs
    → ((w : Str) → cuckoo_contains cf w ≡ true → cuckoo_contains (load_items vs cf) w ≡ true)
      × ((w : Str) → contains vs w ≡ true → cuckoo_contains (load_items vs cf) w ≡ true)
unfolding load_items contains
load_complete [] cf v c e = (λ w h. h, λ w h. absurd (false≢true h))
load_complete (x ∷ vs) cf v c e =
    let cf' = (cuckoo_insert cf x).1 in
    let v' = cuckoo_insert-IsValid cf x v in
    let counts = cuckoo_insert-Counts cf x v c in
    let success : (cuckoo_insert cf x).0 ≡ true = elim (Bool-cases ((cuckoo_insert cf x).0)) [
      | inl ok ↦ ok
      | inr failed ↦ absurd (omega (arith, rw failed at counts.1, (load-le vs cf' v' counts.0).2))
    ] in
    let (kept, items) = load_complete vs cf' v' counts.0 (omega (arith, rw success at counts.1)) in
    let (new, old) = cuckoo_insert_success cf x v success in
    (
      (λ w h. kept w (old w h)),
      (λ w h. elim (Bool-cases (str_eq x w)) [
        | inl same ↦ rw (← (str_eq_iff x w).0 same) (kept x new)
        | inr other ↦ items w (ground arith)
      ]),
    )

-- A filter loaded from a list is valid and exactly counted, and counts at most the items of the list.
pub cuckoo_load_from_list_lem :
    (list : StringList)
    → let cf = cuckoo_load_from_list list in
      IsValid cf × IsCounted cf × (cf.count ≤ length list.items)
unfolding cuckoo_load_from_list
cuckoo_load_from_list_lem list =
    let (v, c, h) = load-le list.items cuckoo_init init-IsValid init-IsCounted in
    (v, c, omega (arith, h, init-count))

-- A filter that counts every item of the list it was loaded from reports every one of them.
pub cuckoo_load_from_list_complete :
    (list : StringList) (w : Str)
    → (cuckoo_load_from_list list).count ≡ length list.items
    → list_contains_exact list w ≡ true
    → cuckoo_contains (cuckoo_load_from_list list) w ≡ true
unfolding cuckoo_load_from_list list_contains_exact
cuckoo_load_from_list_complete list w all m =
    (load_complete list.items cuckoo_init init-IsValid init-IsCounted
        (omega (arith, all, init-count))).1
      w m
