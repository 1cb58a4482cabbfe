-- ===== src/Sketch/Candidates.antt =====
-- The candidate lists of src/agfast_parts/sketches.c: the keys whose estimates the reports print.
pub mod Bounded
mod Tests
use agent_guard_fast_path.Common.{
  ℕ, ◌*◌, Bool, true, false, ◌||◌, List, [], ◌∷◌, ◌++◌, Str, leb, ltb, ◌==◌, if◌then◌else◌,
  is_empty, length,
}
use agent_guard_fast_path.StringList.{contains}

-- `candidate_list_t`
pub record Candidates : Type 0 where
  pub items : List Str
  pub cap : ℕ
  pub max_items : ℕ

unfoldable pub candidates_init : ℕ → Candidates
candidates_init max_items = record { items = []; cap = 0; max_items = max_items }

-- The new capacity of a full array.
abbrev pub new_cap : ℕ → ℕ → ℕ
new_cap cap max_items =
    let doubled = if cap == 0 then 64 else cap * 2 in
    if ltb max_items doubled then max_items else doubled

unfoldable pub candidates_add_unique : Candidates → Str → Candidates
candidates_add_unique c value =
    if is_empty value || leb c.max_items (length c.items)
    then c
    else if contains c.items value
    then c
    else record c {
      items = c.items ++ (value ∷ []);
      cap = if length c.items == c.cap then new_cap c.cap c.max_items else c.cap;
    }
