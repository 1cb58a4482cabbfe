-- ===== src/Sketch/Cuckoo.antt =====
-- The Cuckoo filter of src/agfast_parts/sketches.c.
pub mod Buckets
pub mod Holds
pub mod Kicks
pub mod Membership
pub mod Count
pub mod Delete
pub mod Load
mod Tests
use mathlib.Core.Option
use agent_guard_fast_path.Common.{
  ℕ, zero, suc, ◌+◌, ◌-◌, ◌*◌, ◌%◌, Bool, true, false, ◌||◌, Option, none, some, List, [], ◌∷◌, Str,
  bit_and, bit_xor, u16, u64, ◌==◌, if◌then◌else◌, is_empty, get_or, set, replicate,
}
use agent_guard_fast_path.Hash.{fnv1a64, mix64}
use agent_guard_fast_path.StringList.{StringList}

-- `AGF_CUCKOO_BUCKETS`, `AGF_CUCKOO_SLOTS` and `AGF_CUCKOO_MAX_KICKS`
abbrev pub cuckoo_buckets : ℕ
cuckoo_buckets = 4096

abbrev pub cuckoo_slots : ℕ
cuckoo_slots = 4

abbrev pub max_kicks : ℕ
max_kicks = 64

-- `cuckoo_filter_t`: a row of slots for each bucket; 0 marks a free slot.
pub record Cuckoo : Type 0 where
  pub buckets : List (List ℕ)
  pub count : ℕ

unfoldable pub cuckoo_fingerprint : Str → ℕ
cuckoo_fingerprint value =
    let fp = u16 (bit_and (mix64 (fnv1a64 value)) 0xffff) in if fp == 0 then 1 else fp

unfoldable pub cuckoo_index1 : Str → ℕ
cuckoo_index1 value = mix64 (bit_xor (fnv1a64 value) 0x7f4a7c15) % cuckoo_buckets

unfoldable pub cuckoo_alt_index : ℕ → ℕ → ℕ
cuckoo_alt_index index fp =
    bit_xor index (mix64 (u64 (fp * 0x9e3779b97f4a7c15)) % cuckoo_buckets) % cuckoo_buckets

unfoldable pub cuckoo_init : Cuckoo
cuckoo_init = record { buckets = replicate cuckoo_buckets (replicate cuckoo_slots 0); count = 0 }

-- The loop over the slots of one bucket.
unfoldable pub row_contains : List ℕ → ℕ → Bool
row_contains [] fp = false
row_contains (x ∷ row) fp = x == fp || row_contains row fp

unfoldable pub cuckoo_bucket_contains : Cuckoo → ℕ → ℕ → Bool
unfolding row_contains
cuckoo_bucket_contains cf idx fp = row_contains (get_or cf.buckets idx []) fp

-- The first slot that holds `from` holds `to` afterwards; `none` if no slot holds `from`.
unfoldable pub row_replace : ℕ → ℕ → List ℕ → Option (List ℕ)
row_replace from to [] = none
row_replace from to (x ∷ row) =
    let rest = Option.map (λ r. x ∷ r) (row_replace from to row) in
    if x == from then some (to ∷ row) else rest

abbrev pub with_row : Cuckoo → ℕ → List ℕ → Cuckoo
with_row cf idx row = record cf { buckets = set cf.buckets idx row }

-- `cf->count++` on a `size_t`
unfoldable pub cuckoo_bucket_insert : Cuckoo → ℕ → ℕ → Bool × Cuckoo
unfolding row_replace
cuckoo_bucket_insert cf idx fp = elim (row_replace 0 fp (get_or cf.buckets idx [])) [
  | some row ↦ (true, record (with_row cf idx row) { count = u64 (cf.count + 1) })
  | none ↦ (false, cf)
]

unfoldable pub cuckoo_contains : Cuckoo → Str → Bool
unfolding cuckoo_bucket_contains
cuckoo_contains cf value =
    if is_empty value
    then false
    else let fp = cuckoo_fingerprint value in
      let i1 = cuckoo_index1 value in
      cuckoo_bucket_contains cf i1 fp || cuckoo_bucket_contains cf (cuckoo_alt_index i1 fp) fp

-- The rounds of kicks from number `kick` on, with `left` of them to go.
pub kick_rounds : ℕ → ℕ → ℕ → ℕ → Cuckoo → Bool × Cuckoo
kick_rounds zero kick idx fp cf = (false, cf)
kick_rounds (suc left) kick idx fp cf =
    let row = get_or cf.buckets idx [] in
    let slot = mix64 (u64 (fp + kick)) % cuckoo_slots in
    let old = get_or row slot 0 in
    let cf1 = with_row cf idx (set row slot fp) in
    let idx1 = cuckoo_alt_index idx old in
    let attempt = cuckoo_bucket_insert cf1 idx1 old in
    let rest = kick_rounds left (kick + 1) idx1 old attempt.1 in if attempt.0 then attempt else rest

unfoldable pub cuckoo_insert : Cuckoo → Str → Bool × Cuckoo
cuckoo_insert cf value =
    if is_empty value
    then (false, cf)
    else let fp = cuckoo_fingerprint value in
      let i1 = cuckoo_index1 value in
      let i2 = cuckoo_alt_index i1 fp in
      let first = cuckoo_bucket_insert cf i1 fp in
      let second = cuckoo_bucket_insert first.1 i2 fp in
      let side = bit_and (mix64 (bit_xor (fnv1a64 value) 0xfeedbeef)) 1 in
      let kicked = kick_rounds max_kicks 0 (if side == 0 then i2 else i1) fp second.1 in
      if first.0 then first else if second.0 then second else kicked

-- One of the two buckets that `cuckoo_delete` looks through.
unfoldable pub bucket_delete : Cuckoo → ℕ → ℕ → Bool × Cuckoo
unfolding row_replace
bucket_delete cf idx fp = elim (row_replace fp 0 (get_or cf.buckets idx [])) [
  | some row ↦ (true, record (with_row cf idx row) { count = cf.count - 1 })
  | none ↦ (false, cf)
]

unfoldable pub cuckoo_delete : Cuckoo → Str → Bool × Cuckoo
unfolding bucket_delete
cuckoo_delete cf value =
    if is_empty value
    then (false, cf)
    else let fp = cuckoo_fingerprint value in
      let i1 = cuckoo_index1 value in
      let first = bucket_delete cf i1 fp in
      if first.0 then first else bucket_delete cf (cuckoo_alt_index i1 fp) fp

-- The result of each insertion is dropped.
pub load_items : List Str → Cuckoo → Cuckoo
load_items [] cf = cf
load_items (v ∷ vs) cf = load_items vs (cuckoo_insert cf v).1

unfoldable pub cuckoo_load_from_list : StringList → Cuckoo
unfolding load_items
cuckoo_load_from_list list = load_items list.items cuckoo_init
