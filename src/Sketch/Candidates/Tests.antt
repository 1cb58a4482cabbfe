-- ===== src/Sketch/Candidates/Tests.antt =====
-- The theorem on candidate lists, at a list with room for one more entry.
use agent_guard_fast_path.Common.{◌≡◌, refl, not, ◌&&◌, ◌||◌, ltb, str_eq, [], ◌∷◌, arith, is_empty}
use agent_guard_fast_path.Text.{codes}
use agent_guard_fast_path.StringList.{contains}
use agent_guard_fast_path.Sketch.Candidates.{Candidates, candidates_add_unique}
use agent_guard_fast_path.Sketch.Candidates.Bounded.{IsValid, candidates_add_unique_lem}

abbrev one : Candidates
one = record { items = codes "a" ∷ []; cap = 1; max_items = 2 }

one-IsValid : IsValid one
unfolding contains
one-IsValid = record { fits = omega arith; limited = omega arith; distinct = (refl, tt) }

candidates_add_unique_lem_example :
    IsValid (candidates_add_unique one (codes "b"))
    × (contains (candidates_add_unique one (codes "b")).items (codes "b") ≡ (
        contains one.items (codes "b")
        || not (is_empty (codes "b")) && ltb 1 2 && str_eq (codes "b") (codes "b")))
candidates_add_unique_lem_example =
    candidates_add_unique_lem one (codes "b") (codes "b") one-IsValid
