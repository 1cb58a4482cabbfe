-- ===== src/StringList/Laws.antt =====
-- The list as a set: what `list_contains_exact` finds, and what the two additions keep.
use agent_guard_fast_path.Common.{
  ◌≤◌, ◌≡◌, refl, false, ◌||◌, List, [], ◌∷◌, ◌++◌, Str, str_eq, str_eq_iff, arith, length-append,
  is_empty, if◌then◌else◌,
}
use agent_guard_fast_path.StringList.{
  StringList, count, contains, list_add, list_add_unique, list_contains_exact,
}

pub contains-append :
    (xs ys : List Str) (v : Str) → contains (xs ++ ys) v ≡ (contains xs v || contains ys v)
unfolding contains
contains-append [] ys v = refl
contains-append (x ∷ xs) ys v = ground (arith, contains-append xs ys v)

-- No string is held twice.
abbrev pub Distinct : List Str → Type 0
Distinct [] = Unit
Distinct (x ∷ xs) = (contains xs x ≡ false) × Distinct xs

pub Distinct-append_one :
    (xs : List Str) (v : Str) → contains xs v ≡ false → Distinct xs → Distinct (xs ++ v ∷ [])
unfolding contains
Distinct-append_one [] v n d = (refl, tt)
Distinct-append_one (x ∷ xs) v n d = (
  ground (arith, contains-append xs (v ∷ []) x, str_eq_iff x v, str_eq_iff v x),
  Distinct-append_one xs v (ground arith) d.1,
)

-- What every list of the program keeps: room for its entries.
pub record IsValid (l : StringList) : Type 0 where
  pub fits : count l ≤ l.cap

-- The entries never pass the capacity that was allocated.
pub list_add-IsValid : (l : StringList) (v : Str) → IsValid l → IsValid (list_add l v)
unfolding list_add
list_add-IsValid l v h = record { fits = ground (arith, h.fits, length-append l.items (v ∷ [])) }

-- What `list_contains_exact` finds after `list_add`: the strings found before and, unless it is
-- empty, the new one.
pub list_contains_exact-list_add :
    (l : StringList) (v w : Str)
    → list_contains_exact (list_add l v) w
      ≡ (if is_empty v then list_contains_exact l w else (list_contains_exact l w || str_eq v w))
unfolding list_contains_exact list_add
list_contains_exact-list_add l v w = ground (arith, contains-append l.items (v ∷ []) w)

-- `list_add_unique` keeps the capacity invariant and a list without duplicates, finds afterwards
-- exactly what `list_add` would make it find, and is `list_add` where the string is not there yet.
pub list_add_unique_lem :
    (l : StringList) (v : Str)
    → IsValid l
    → Distinct l.items
    → IsValid (list_add_unique l v)
      × Distinct (list_add_unique l v).items
      × ((w : Str)
          → list_contains_exact (list_add_unique l v) w ≡ list_contains_exact (list_add l v) w)
      × (list_add_unique l v ≡ (if list_contains_exact l v then l else list_add l v))
unfolding list_add_unique list_contains_exact list_add
list_add_unique_lem l v h d = (
  record { fits = ground (arith, h.fits, length-append l.items (v ∷ [])) },
  ground (arith, Distinct-append_one l.items v),
  (λ w. ground (arith, contains-append l.items (v ∷ []) w, str_eq_iff v w)),
  ground arith,
)
