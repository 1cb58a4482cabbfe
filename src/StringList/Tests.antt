-- ===== src/StringList/Tests.antt =====
-- Runs of the string list, and its theorems at a concrete list.
use agent_guard_fast_path.Common.{◌≡◌, refl, [], ◌∷◌, str_eq, arith}
use agent_guard_fast_path.Text.{codes}
use agent_guard_fast_path.StringList.{StringList, contains, list_add, list_add_unique, empty_list}
use agent_guard_fast_path.StringList.Laws.{IsValid, Distinct}

abbrev pair : StringList
pair = record { items = codes "a" ∷ codes "b" ∷ []; cap = 16 }

adds :
    (list_add_unique
        (list_add_unique (list_add_unique empty_list (codes "a")) (codes "b"))
        (codes "a")
      ≡ pair)
    × (list_add empty_list [] ≡ empty_list)
unfolding list_add_unique list_add str_eq
adds = (refl, refl)

pair-IsValid : IsValid pair
pair-IsValid = record { fits = omega arith }

pair-Distinct : Distinct pair.items
unfolding contains str_eq
pair-Distinct = (refl, (refl, tt))
