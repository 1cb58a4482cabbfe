-- ===== src/Sketch/Cuckoo/Membership.antt =====
-- What a Cuckoo filter reports after an insertion.
use agent_guard_fast_path.Common.{
  ℕ, ◌<◌, ◌≡◌, ◌≢◌, refl, sym, ap, ap₂, ◌∙◌, Bool, true, false, false≢true, ◌||◌, Str, arith, ◌⊎◌,
  inl, inr, ◌==◌, if◌then◌else◌, is_empty, Bool-cases, bit_and, bit_xor,
}
use agent_guard_fast_path.Hash.{fnv1a64, mix64}
use agent_guard_fast_path.Sketch.Cuckoo.{
  Cuckoo, cuckoo_buckets, max_kicks, cuckoo_fingerprint, cuckoo_index1, cuckoo_alt_index,
  row_contains, cuckoo_bucket_insert, cuckoo_contains, kick_rounds, cuckoo_insert,
}
use agent_guard_fast_path.Sketch.Cuckoo.Buckets.{alt_index-lt, fingerprint_ne_zero, index1-lt}
use agent_guard_fast_path.Sketch.Cuckoo.Holds.{
  row_at, IsValid, Holds, Own, bucket_insert-IsValid, bucket_insert_keep,
}
use agent_guard_fast_path.Sketch.Cuckoo.Kicks.{kick_lost, Around, Left, place_lem, kick_rounds_lem}

-- `cuckoo_contains` asks whether the fingerprint of the value is held.
pub contains_cases :
    (cf : Cuckoo) (w : Str)
    → cuckoo_contains cf w ≡ (
        if is_empty w
        then false
        else (row_contains (row_at cf (cuckoo_index1 w)) (cuckoo_fingerprint w)
            || row_contains
                (row_at cf (cuckoo_alt_index (cuckoo_index1 w) (cuckoo_fingerprint w)))
                (cuckoo_fingerprint w)))
unfolding cuckoo_contains
contains_cases cf w = refl

pub contains-Holds :
    (cf : Cuckoo) (w : Str)
    → cuckoo_contains cf w ≡ true
    → Holds cf (cuckoo_fingerprint w) (cuckoo_index1 w)
contains-Holds cf w h = ground (arith, contains_cases cf w)

pub contains_of_Holds :
    (cf : Cuckoo) (w : Str)
    → is_empty w ≡ false
    → Holds cf (cuckoo_fingerprint w) (cuckoo_index1 w)
    → cuckoo_contains cf w ≡ true
contains_of_Holds cf w ne (inl h) = ground (arith, contains_cases cf w)
contains_of_Holds cf w ne (inr h) = ground (arith, contains_cases cf w)

-- The bucket in which the kicks of a value begin.
abbrev pub start : Str → ℕ
start value =
    let i1 = cuckoo_index1 value in
    if bit_and (mix64 (bit_xor (fnv1a64 value) 0xfeedbeef)) 1 == 0
    then cuckoo_alt_index i1 (cuckoo_fingerprint value)
    else i1

module _ (cf : Cuckoo) (value : Str) where
  abbrev pub fp : ℕ
  fp = cuckoo_fingerprint value

  abbrev pub first : Bool × Cuckoo
  first = cuckoo_bucket_insert cf (cuckoo_index1 value) fp

  abbrev pub second : Bool × Cuckoo
  second = cuckoo_bucket_insert first.1 (cuckoo_alt_index (cuckoo_index1 value) fp) fp

  abbrev pub kicked : Bool × Cuckoo
  kicked = kick_rounds max_kicks 0 (start value) fp second.1

  pub insert_cases :
      is_empty value ≡ false
      → cuckoo_insert cf value ≡ (if first.0 then first else if second.0 then second else kicked)
  unfolding cuckoo_insert
  insert_cases ne = rw ne

  -- The fingerprint that a failed insertion drops.
  pub cuckoo_lost : ℕ
  cuckoo_lost =
      if first.0 then 0 else if second.0 then 0 else kick_lost max_kicks 0 (start value) fp second.1

  pub lost_none : first.0 ≡ true → cuckoo_lost ≡ 0
  unfolding cuckoo_lost
  lost_none ok = rw ok

  -- Fingerprint `f` of bucket `i` is held, or it is the one that is being inserted.
  abbrev Seen : Cuckoo → ℕ → ℕ → Type 0
  Seen c f i = Holds c f i ⊎ ((fp ≡ f) × (cuckoo_index1 value ≡ i))

  Own-alt :
      (f i : ℕ)
      → fp ≡ f
      → cuckoo_index1 value ≡ i
      → Own (cuckoo_alt_index (cuckoo_index1 value) fp) f i
  Own-alt f i e e' = inr (ap₂ cuckoo_alt_index e' e)

  Own-start : (f i : ℕ) → fp ≡ f → cuckoo_index1 value ≡ i → Own (start value) f i
  Own-start f i e e' =
      elim (Bool-cases (bit_and (mix64 (bit_xor (fnv1a64 value) 0xfeedbeef)) 1 == 0)) [
        | inl even ↦ rw even (Own-alt f i e e')
        | inr odd ↦ rw odd (inl e')
      ]

  pub start-lt : start value < cuckoo_buckets
  start-lt = ground (arith, index1-lt value, alt_index-lt (cuckoo_index1 value) fp)

  around :
      (c : Cuckoo) (b f i : ℕ)
      → (fp ≡ f → cuckoo_index1 value ≡ i → Own b f i)
      → Seen c f i
      → Around c b fp f i
  around c b f i own (inl h) = inl h
  around c b f i own (inr (e, e')) = inr (e, own e e')

  insert-Seen :
      (c : Cuckoo) (b f i : ℕ)
      → IsValid c
      → b < cuckoo_buckets
      → f ≢ 0
      → Seen c f i
      → Seen (cuckoo_bucket_insert c b fp).1 f i
  insert-Seen c b f i v lt ne (inl h) = inl (bucket_insert_keep c b fp v lt f i ne h)
  insert-Seen c b f i v lt ne (inr e) = inr e

  -- `cuckoo_insert`, seen from fingerprint `f` of bucket `i`.
  insert_lem :
      (f i : ℕ)
      → IsValid cf
      → is_empty value ≡ false
      → i < cuckoo_buckets
      → f ≢ 0
      → Seen cf f i
      → IsValid (cuckoo_insert cf value).1 × Left (cuckoo_insert cf value) cuckoo_lost f i
  unfolding cuckoo_lost
  insert_lem f i v some_value i_lt ne seen =
      let i1 = cuckoo_index1 value in
      let i2 = cuckoo_alt_index i1 fp in
      let lt1 = index1-lt value in
      let lt2 = alt_index-lt i1 fp in
      let v1 = bucket_insert-IsValid cf i1 fp v lt1 in
      let v2 = bucket_insert-IsValid first.1 i2 fp v1 lt2 in
      let seen1 = insert-Seen cf i1 f i v lt1 ne seen in
      let seen2 = insert-Seen first.1 i2 f i v1 lt2 ne seen1 in
      rw (insert_cases some_value) elim (Bool-cases first.0) [
        | inl ok ↦
            rw ok (
              v1,
              inl (place_lem cf i1 fp f i v lt1 ne (around cf i1 f i (λ e e'. inl e') seen) ok),
            )
        | inr full ↦ rw full elim (Bool-cases second.0) [
          | inl ok ↦ rw ok (
            v2,
            inl (
                place_lem first.1 i2 fp f i v1 lt2 ne (around first.1 i2 f i (Own-alt f i) seen1)
                  ok),
          )
          | inr full2 ↦ rw full2 (
              kick_rounds_lem max_kicks 0 (start value) fp second.1 f i v2 start-lt i_lt ne
                (around second.1 (start value) f i (Own-start f i) seen2))
        ]
      ]

pub insert_empty :
    (cf : Cuckoo) (value : Str) → is_empty value ≡ true → cuckoo_insert cf value ≡ (false, cf)
unfolding cuckoo_insert
insert_empty cf value e = rw e

contains_ne : (cf : Cuckoo) (w : Str) → cuckoo_contains cf w ≡ true → is_empty w ≡ false
contains_ne cf w h = ground (arith, contains_cases cf w)

-- `cuckoo_insert` keeps the filter valid.
pub cuckoo_insert-IsValid :
    (cf : Cuckoo) (value : Str) → IsValid cf → IsValid (cuckoo_insert cf value).1
cuckoo_insert-IsValid cf value v = elim (Bool-cases (is_empty value)) [
  | inl e ↦ rw (insert_empty cf value e) v
  | inr ne ↦
      (insert_lem cf value (cuckoo_fingerprint value) (cuckoo_index1 value) v ne (index1-lt value)
        (fingerprint_ne_zero value) (inr (refl, refl))).0
]

-- What is seen of a value that is reported, or is being inserted.
reported :
    (cf : Cuckoo) (value w : Str)
    → (cuckoo_contains cf w ≡ true) ⊎ (value ≡ w)
    → Seen cf value cf (cuckoo_fingerprint w) (cuckoo_index1 w)
reported cf value w (inl h) = inl (contains-Holds cf w h)
reported cf value w (inr e) = inr (ap cuckoo_fingerprint e, ap cuckoo_index1 e)

after_insert :
    (cf : Cuckoo) (value w : Str)
    → IsValid cf
    → is_empty value ≡ false
    → (cuckoo_contains cf w ≡ true) ⊎ (value ≡ w)
    → Left (cuckoo_insert cf value) (cuckoo_lost cf value) (cuckoo_fingerprint w) (cuckoo_index1 w)
after_insert cf value w v ne before =
    (insert_lem cf value (cuckoo_fingerprint w) (cuckoo_index1 w) v ne (index1-lt w)
      (fingerprint_ne_zero w) (reported cf value w before)).1

-- A successful insertion stores its value and loses none: afterwards the filter reports the value,
-- and every value that it reported before.
pub cuckoo_insert_success :
    (cf : Cuckoo) (value : Str)
    → IsValid cf
    → (cuckoo_insert cf value).0 ≡ true
    → (cuckoo_contains (cuckoo_insert cf value).1 value ≡ true)
      × ((w : Str)
          → cuckoo_contains cf w ≡ true
          → cuckoo_contains (cuckoo_insert cf value).1 w ≡ true)
cuckoo_insert_success cf value v success = elim (Bool-cases (is_empty value)) [
  | inl e ↦
      absurd
        (false≢true (sym (ap (λ (r : Bool × Cuckoo). r.0) (insert_empty cf value e)) ∙ success))
  | inr ne ↦ (kept ne value ne (inr refl), λ w h. kept ne w (contains_ne cf w h) (inl h))
]
  where
    kept :
        is_empty value ≡ false
        → (w : Str) → is_empty w ≡ false
        → (cuckoo_contains cf w ≡ true) ⊎ (value ≡ w)
        → cuckoo_contains (cuckoo_insert cf value).1 w ≡ true
    kept ne w ne' before = elim (after_insert cf value w v ne before) [
      | inl h ↦ contains_of_Holds (cuckoo_insert cf value).1 w ne' h
      | inr (fail, _) ↦ absurd (false≢true (sym fail ∙ success))
    ]

-- A failed insertion of a value that is not empty loses at most one fingerprint: a value that was
-- reported before, or is being inserted, is reported afterwards unless it has that fingerprint.
pub cuckoo_insert_failure :
    (cf : Cuckoo) (value w : Str)
    → IsValid cf
    → is_empty value ≡ false
    → is_empty w ≡ false
    → (cuckoo_contains cf w ≡ true) ⊎ (value ≡ w)
    → cuckoo_fingerprint w ≢ cuckoo_lost cf value
    → cuckoo_contains (cuckoo_insert cf value).1 w ≡ true
cuckoo_insert_failure cf value w v ne ne' before kept = elim (after_insert cf value w v ne before) [
  | inl h ↦ contains_of_Holds (cuckoo_insert cf value).1 w ne' h
  | inr (_, lost) ↦ absurd (kept (sym lost))
]
