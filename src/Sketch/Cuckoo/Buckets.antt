-- ===== src/Sketch/Cuckoo/Buckets.antt =====
-- The slots of a bucket, and the two buckets of a fingerprint.
use agent_guard_fast_path.Common.{
  ℕ, zero, suc, ◌*◌, ◌%◌, ◌<◌, ◌≡◌, ◌≢◌, refl, ap, true, none, some, List, [], ◌∷◌, Str, arith, ◌⊎◌,
  inl, false≢true, ◌==◌, if◌then◌else◌, length, get_or, set, bit_xor, xor_cancel, xor-lt-pow, u64,
}
use agent_guard_fast_path.Hash.{mix64}
use agent_guard_fast_path.Sketch.Cuckoo.{
  cuckoo_buckets, cuckoo_fingerprint, cuckoo_index1, cuckoo_alt_index, row_contains, row_replace,
}

pub alt_index-lt : (i fp : ℕ) → cuckoo_alt_index i fp < cuckoo_buckets
unfolding cuckoo_alt_index
alt_index-lt i fp = omega arith

-- The other bucket of the other bucket is the first one: an entry can be moved knowing only its
-- fingerprint.
pub alt_index_involutive :
    (i fp : ℕ) → i < cuckoo_buckets → cuckoo_alt_index (cuckoo_alt_index i fp) fp ≡ i
unfolding cuckoo_alt_index
alt_index_involutive i fp h =
    let m = mix64 (u64 (fp * 0x9e3779b97f4a7c15)) % cuckoo_buckets in
    let small : bit_xor i m < 4096 = xor-lt-pow 12 i m h (omega arith) in
    let same : bit_xor i m % 4096 ≡ bit_xor i m = omega (arith, small) in
    omega (arith, ap (λ (t : ℕ). bit_xor t m) same, xor_cancel i m)

pub fingerprint_ne_zero : (v : Str) → cuckoo_fingerprint v ≢ 0
unfolding cuckoo_fingerprint
fingerprint_ne_zero v = ground arith

pub index1-lt : (v : Str) → cuckoo_index1 v < cuckoo_buckets
unfolding cuckoo_index1
index1-lt v = omega arith

-- A write to a slot loses at most what the slot held.
pub row_contains-set :
    (row : List ℕ) (s v f : ℕ)
    → row_contains row f ≡ true
    → (row_contains (set row s v) f ≡ true) ⊎ (get_or row s 0 ≡ f)
unfolding row_contains
row_contains-set [] s v f h = inl h
row_contains-set (x ∷ row) zero v f h = ground arith
row_contains-set (x ∷ row) (suc s) v f h = ground (arith, row_contains-set row s v f)

pub row_contains-set_self :
    (row : List ℕ) (s v : ℕ) → s < length row → row_contains (set row s v) v ≡ true
unfolding row_contains
row_contains-set_self [] s v h = absurd (omega arith)
row_contains-set_self (x ∷ row) zero v h = ground arith
row_contains-set_self (x ∷ row) (suc s) v h = ground (arith, row_contains-set_self row s v)

-- The replacement as a total function.
unfoldable pub replaced : ℕ → ℕ → List ℕ → List ℕ
replaced from to [] = []
replaced from to (x ∷ row) = if x == from then to ∷ row else x ∷ replaced from to row

pub row_replace_lem :
    (from to : ℕ) (row : List ℕ)
    → row_replace from to row
      ≡ (if row_contains row from then some (replaced from to row) else none)
unfolding row_replace row_contains replaced
row_replace_lem from to [] = refl
row_replace_lem from to (x ∷ row) = ground (arith, row_replace_lem from to row)

pub length-replaced : (from to : ℕ) (row : List ℕ) → length (replaced from to row) ≡ length row
unfolding replaced
length-replaced from to [] = refl
length-replaced from to (x ∷ row) = ground (arith, length-replaced from to row)

-- Where the old value is there, the new one is afterwards.
pub row_contains-replaced_self :
    (from to : ℕ) (row : List ℕ)
    → row_contains row from ≡ true
    → row_contains (replaced from to row) to ≡ true
unfolding replaced row_contains
row_contains-replaced_self from to [] h = absurd (false≢true h)
row_contains-replaced_self from to (x ∷ row) h =
    ground (arith, row_contains-replaced_self from to row)

-- No other value is lost.
pub row_contains-replaced :
    (from to : ℕ) (row : List ℕ) (f : ℕ)
    → f ≢ from
    → row_contains row f ≡ true
    → row_contains (replaced from to row) f ≡ true
unfolding replaced row_contains
row_contains-replaced from to [] f ne h = absurd (false≢true h)
row_contains-replaced from to (x ∷ row) f ne h = ground (arith, row_contains-replaced from to row f)
