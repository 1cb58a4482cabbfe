-- ===== src/Sketch/SpaceSaving/Raise.antt =====
-- The first loop of `ss_update` as a total function, and what it keeps.
use agent_guard_fast_path.Common.{
  ◌+◌, ◌^◌, ◌<◌, ◌≡◌, refl, true, false, List, [], ◌∷◌, none, some, Str, arith, u64, str_eq,
  str_eq_iff, if◌then◌else◌, length, All, inl, inr, Bool-cases, false≢true,
}
use agent_guard_fast_path.Sketch.SpaceSaving.{Item, bump}
use agent_guard_fast_path.Sketch.SpaceSaving.Counters.{tracked, total, Distinct, All-map, not_true}

abbrev pub raised : Item → Item
raised it = record it { count = u64 (it.count + 1) }

pub raise : Str → List Item → List Item
raise x [] = []
raise x (it ∷ items) = if str_eq it.key x then raised it ∷ items else it ∷ raise x items

-- The loop finds the key if and only if it is tracked.
pub bump_lem :
    (x : Str) (items : List Item)
    → bump x items ≡ (if tracked items x then some (raise x items) else none)
unfolding bump tracked raise
bump_lem x [] = refl
bump_lem x (it ∷ items) = ground (arith, bump_lem x items)

pub length-raise : (x : Str) (items : List Item) → length (raise x items) ≡ length items
unfolding raise
length-raise x [] = refl
length-raise x (it ∷ items) = ground (arith, length-raise x items)

pub tracked-raise :
    (x : Str) (items : List Item) (k : Str) → tracked (raise x items) k ≡ tracked items k
unfolding raise tracked
tracked-raise x [] k = refl
tracked-raise x (it ∷ items) k = ground (arith, tracked-raise x items k)

pub Distinct-raise : (x : Str) (items : List Item) → Distinct items → Distinct (raise x items)
unfolding raise
Distinct-raise x [] d = tt
Distinct-raise x (it ∷ items) d = elim (Bool-cases (str_eq it.key x)) [
  | inl e ↦ rw e d
  | inr ne ↦ rw ne (rw (tracked-raise x items it.key) d.0, Distinct-raise x items d.1)
]

pub total-raise :
    (x : Str) (items : List Item)
    → tracked items x ≡ true
    → total items + 1 < 2 ^ 64
    → total (raise x items) ≡ total items + 1
unfolding raise total tracked
total-raise x [] t h = absurd (false≢true t)
total-raise x (it ∷ items) t h = ground (arith, total-raise x items)

module _ (x : Str) (P Q : Item → Type 0) (at_key : (it : Item) → it.key ≡ x → P it → Q (raised it))
    (elsewhere : (it : Item) → str_eq it.key x ≡ false → P it → Q it) where
  pub All-raise : (items : List Item) → Distinct items → All P items → All Q (raise x items)
  unfolding raise
  All-raise [] d h = tt
  All-raise (it ∷ items) d h = elim (Bool-cases (str_eq it.key x)) [
    | inl e ↦
        let same = (str_eq_iff it.key x).0 e in
        let after : (j : Item) → tracked items j.key ≡ true → P j → Q j = λ j m p.
          elsewhere j (not_true (λ k. ground (arith, str_eq_iff j.key x, same, d.0, m, k))) p in
        rw e (at_key it same h.0, All-map P Q items after h.1)
    | inr ne ↦ rw ne (elsewhere it ne h.0, All-raise items d.1 h.1)
  ]
