-- ===== src/StringList.antt =====
-- src/string_list.c: the growing array of strings of the policy, the graph and the reports.
-- The array holds its `count` first entries in `items`; a failing `realloc` ends the program.
pub mod Laws
mod Tests
use agent_guard_fast_path.Common.{
  ℕ, ◌+◌, ◌*◌, Bool, true, false, ◌||◌, List, [], ◌∷◌, ◌++◌, Str, str_eq, ◌==◌, if◌then◌else◌,
  is_empty, length,
}

-- `string_list_t`
pub record StringList : Type 0 where
  pub items : List Str
  pub cap : ℕ

abbrev pub count : StringList → ℕ
count l = length l.items

abbrev pub empty_list : StringList
empty_list = record { items = []; cap = 0 }

-- The capacity after `realloc`, which is asked for only in a full array.
abbrev pub grown : ℕ → ℕ → ℕ
grown used cap = if used == cap then (if cap == 0 then 16 else cap * 2) else cap

unfoldable pub list_add : StringList → Str → StringList
list_add l value =
    if is_empty value
    then l
    else record { items = l.items ++ (value ∷ []); cap = grown (count l) l.cap }

-- The loop of `list_add_unique` and of `list_contains_exact`.
unfoldable pub contains : List Str → Str → Bool
contains [] value = false
contains (x ∷ xs) value = str_eq x value || contains xs value

unfoldable pub list_add_unique : StringList → Str → StringList
unfolding list_add contains
list_add_unique l value =
    if is_empty value then l else if contains l.items value then l else list_add l value

unfoldable pub list_contains_exact : StringList → Str → Bool
unfolding contains
list_contains_exact l value = contains l.items value

-- `fnmatch` is the system's; `fnmatch pattern value` is its test `== 0`.
module _ (fnmatch : Str → Str → Bool) where
  pub matches : List Str → Str → Bool
  matches [] value = false
  matches (p ∷ ps) value = fnmatch p value || matches ps value

  unfoldable pub list_matches_pattern : StringList → Str → Bool
  unfolding matches
  list_matches_pattern l value = matches l.items value

unfoldable pub list_free : StringList → StringList
list_free l = empty_list
