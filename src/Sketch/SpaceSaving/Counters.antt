-- ===== src/Sketch/SpaceSaving/Counters.antt =====
-- Sums, keys and the least count of a list of counters.
use agent_guard_fast_path.Common.{
  ℕ, zero, suc, ◌+◌, ◌*◌, ◌≤◌, ◌<◌, ◌≡◌, ◌≢◌, refl, sym, ◌∙◌, ap, subst, Bool, true, false, ◌||◌,
  List, [], ◌∷◌, ◌++◌, Str, arith, ltb, str_eq, str_eq_iff, str_eq_self, if◌then◌else◌, length,
  get_or, set, All, ◌⊎◌, inl, inr, Bool-cases,
}
use agent_guard_fast_path.Sketch.SpaceSaving.{Item, empty_item, min_from, min_index}

pub not_true : {b : Bool} → (b ≡ true → ⊥) → b ≡ false
not_true {b = true} h = absurd (h refl)
not_true {b = false} h = refl

-- An entry has this key.
unfoldable pub tracked : List Item → Str → Bool
tracked [] k = false
tracked (it ∷ items) k = str_eq it.key k || tracked items k

-- No key has two entries.
abbrev pub Distinct : List Item → Type 0
Distinct [] = Unit
Distinct (it ∷ items) = (tracked items it.key ≡ false) × Distinct items

unfoldable pub total : List Item → ℕ
total [] = 0
total (it ∷ items) = it.count + total items

-- Index `m` of `all` has a count of at most `least` and of at most each of `items`.
abbrev MinAt : List Item → List Item → ℕ → ℕ → Type 0
MinAt all items least m =
    (m < length all)
    × ((get_or all m empty_item).count ≤ least)
    × All (λ it. (get_or all m empty_item).count ≤ it.count) items

min_from-cons :
    (it : Item) (items : List Item) (i best least : ℕ)
    → min_from (it ∷ items) i best least ≡ (
        if ltb it.count least
        then min_from items (i + 1) i it.count
        else min_from items (i + 1) best least)
unfolding min_from
min_from-cons it items i best least = refl

min_from_lem :
    (all items : List Item) (i best least : ℕ)
    → ((j : ℕ) → get_or all (i + j) empty_item ≡ get_or items j empty_item)
    → length all ≡ i + length items
    → best < i
    → least ≡ (get_or all best empty_item).count
    → MinAt all items least (min_from items i best least)
unfolding min_from
min_from_lem all [] i best least at len lt eq = (omega arith, omega arith, tt)
min_from_lem all (it ∷ items) i best least at len lt eq =
    let at' : (j : ℕ) → get_or all (i + 1 + j) empty_item ≡ get_or items j empty_item =
      λ j. ap (λ (t : ℕ). get_or all t empty_item) (omega arith) ∙ at (suc j) in
    let here : get_or all i empty_item ≡ it =
      ap (λ (t : ℕ). get_or all t empty_item) (omega arith) ∙ at 0 in
    elim (Bool-cases (ltb it.count least)) [
      | inl less ↦
          let (a, b, c) =
            min_from_lem all items (i + 1) i it.count at' (omega arith) (omega arith)
              (ap (λ (t : Item). t.count) (sym here)) in
          subst (MinAt all (it ∷ items) least) (sym (min_from-cons it items i best least ∙ rw less))
            (a, ground arith, (b, c))
      | inr more ↦
          let (a, b, c) =
            min_from_lem all items (i + 1) best least at' (omega arith) (omega arith) eq in
          subst (MinAt all (it ∷ items) least) (sym (min_from-cons it items i best least ∙ rw more))
            (a, b, (ground arith, c))
    ]

-- `min_index` is an index of an entry whose count is the least.
pub min_index_lem :
    (items : List Item)
    → 0 < length items
    → (min_index items < length items)
      × All (λ it. (get_or items (min_index items) empty_item).count ≤ it.count) items
unfolding min_index
min_index_lem [] h = absurd (omega arith)
min_index_lem (it ∷ items) h =
    let at : (j : ℕ) → get_or (it ∷ items) (1 + j) empty_item ≡ get_or items j empty_item =
      λ j. let e : 1 + j ≡ suc j = omega arith in rw e in
    let (a, b, c) =
      min_from_lem (it ∷ items) items 1 0 it.count at (omega arith) (omega arith) refl in
    (a, (b, c))

module _ (P : Item → Type 0) where
  pub All-set : (items : List Item) (i : ℕ) (v : Item) → All P items → P v → All P (set items i v)
  All-set [] i v h p = tt
  All-set (it ∷ items) zero v h p = (p, h.1)
  All-set (it ∷ items) (suc i) v h p = (h.0, All-set items i v h.1 p)

  pub All-get :
      (items : List Item) (i : ℕ) → i < length items → All P items → P (get_or items i empty_item)
  All-get [] i lt h = absurd (omega arith)
  All-get (it ∷ items) zero lt h = h.0
  All-get (it ∷ items) (suc i) lt h = All-get items i (omega arith) h.1

  pub All-append_one : (items : List Item) (v : Item) → All P items → P v → All P (items ++ v ∷ [])
  All-append_one [] v h p = (p, tt)
  All-append_one (it ∷ items) v h p = (h.0, All-append_one items v h.1 p)

  pub All-map :
      (Q : Item → Type 0) (items : List Item)
      → ((it : Item) → tracked items it.key ≡ true → P it → Q it)
      → All P items
      → All Q items
  unfolding tracked
  All-map Q [] step h = tt
  All-map Q (it ∷ items) step h =
      (step it (rw (str_eq_self it.key)) h.0, All-map Q items (λ j m. step j (ground arith)) h.1)

pub All-zip :
    (P Q : Item → Type 0) (items : List Item)
    → All P items
    → All Q items
    → All (λ it. P it × Q it) items
All-zip P Q [] h k = tt
All-zip P Q (it ∷ items) h k = ((h.0, k.0), All-zip P Q items h.1 k.1)

pub total-set :
    (items : List Item) (i : ℕ) (v : Item)
    → i < length items
    → total (set items i v) + (get_or items i empty_item).count ≡ total items + v.count
unfolding total
total-set [] i v h = absurd (omega arith)
total-set (it ∷ items) zero v h = omega arith
total-set (it ∷ items) (suc i) v h = omega (arith, total-set items i v (omega arith))

pub total-append_one :
    (items : List Item) (v : Item) → total (items ++ v ∷ []) ≡ total items + v.count
unfolding total
total-append_one [] v = omega arith
total-append_one (it ∷ items) v = omega (arith, total-append_one items v)

pub count-le-total : (items : List Item) → All (λ it. it.count ≤ total items) items
unfolding total
count-le-total [] = tt
count-le-total (it ∷ items) = (
  omega arith,
  All-map (λ j. j.count ≤ total items) (λ j. j.count ≤ it.count + total items) items
      (λ j _ h. omega arith) (count-le-total items),
)

-- A list of `n` counts that are each at least `m` sums to at least `n * m`.
pub least-mul-length :
    (m : ℕ) (items : List Item) → All (λ it. m ≤ it.count) items → length items * m ≤ total items
unfolding total
least-mul-length m [] h = omega arith
least-mul-length m (it ∷ items) h = grind (arith, least-mul-length m items h.1)

-- The keys after an entry is written: its own, and those of the other entries.
pub tracked-set :
    (items : List Item) (i : ℕ) (v : Item) (k : Str)
    → tracked (set items i v) k ≡ true
    → (tracked items k ≡ true) ⊎ (v.key ≡ k)
unfolding tracked
tracked-set [] i v k h = ground arith
tracked-set (it ∷ items) zero v k h = ground (arith, str_eq_iff v.key k)
tracked-set (it ∷ items) (suc i) v k h = ground (arith, tracked-set items i v k)

pub untracked-set :
    (items : List Item) (i : ℕ) (v : Item) (k : Str)
    → i < length items
    → tracked (set items i v) k ≡ false
    → (v.key ≢ k) × ((tracked items k ≡ false) ⊎ ((get_or items i empty_item).key ≡ k))
unfolding tracked
untracked-set [] i v k lt h = absurd (omega arith)
untracked-set (it ∷ items) zero v k lt h = ground (arith, str_eq_iff v.key k, str_eq_iff it.key k)
untracked-set (it ∷ items) (suc i) v k lt h = ground (arith, untracked-set items i v k)

pub Distinct-set :
    (items : List Item) (i : ℕ) (v : Item)
    → tracked items v.key ≡ false
    → Distinct items
    → Distinct (set items i v)
unfolding tracked
Distinct-set [] i v n d = tt
Distinct-set (it ∷ items) zero v n d = (ground arith, d.1)
Distinct-set (it ∷ items) (suc i) v n d = (
  not_true (λ h. ground (arith, tracked-set items i v it.key h, str_eq_iff it.key v.key)),
  Distinct-set items i v (ground arith) d.1,
)

pub tracked-append_one :
    (items : List Item) (v : Item) (k : Str)
    → tracked (items ++ v ∷ []) k ≡ (tracked items k || str_eq v.key k)
unfolding tracked
tracked-append_one [] v k = ground arith
tracked-append_one (it ∷ items) v k = ground (arith, tracked-append_one items v k)

pub Distinct-append_one :
    (items : List Item) (v : Item)
    → tracked items v.key ≡ false
    → Distinct items
    → Distinct (items ++ v ∷ [])
unfolding tracked
Distinct-append_one [] v n d = (refl, tt)
Distinct-append_one (it ∷ items) v n d = (
  ground
      (arith, tracked-append_one items v it.key, str_eq_iff v.key it.key, str_eq_iff it.key v.key),
  Distinct-append_one items v (ground arith) d.1,
)
