-- ===== src/Sketch/Candidates/Bounded.antt =====
-- A candidate list stays within its limits.
use agent_guard_fast_path.Common.{
  ◌≤◌, ◌≡◌, ◌||◌, ◌&&◌, not, [], ◌∷◌, Str, arith, str_eq, str_eq_iff, is_empty, ltb, length,
  length-append,
}
use agent_guard_fast_path.StringList.{contains}
use agent_guard_fast_path.StringList.Laws.{contains-append, Distinct, Distinct-append_one}
use agent_guard_fast_path.Sketch.Candidates.{Candidates, candidates_add_unique}

-- Room for the entries, no more room than the limit, and no entry twice.
pub record IsValid (c : Candidates) : Type 0 where
  pub fits : length c.items ≤ c.cap
  pub limited : c.cap ≤ c.max_items
  pub distinct : Distinct c.items

-- `candidates_add_unique` keeps the entries distinct and within an array of at most `max_items`
-- places. Afterwards a string is found if it was before, or if it is the new one, which is not empty
-- and met a list below its limit.
pub candidates_add_unique_lem :
    (c : Candidates) (v w : Str)
    → IsValid c
    → IsValid (candidates_add_unique c v)
      × (contains (candidates_add_unique c v).items w ≡ (
          contains c.items w || not (is_empty v) && ltb (length c.items) c.max_items && str_eq v w))
unfolding candidates_add_unique contains
candidates_add_unique_lem c v w h = (
  record {
    fits = ground (arith, h.fits, h.limited, length-append c.items (v ∷ []));
    limited = ground (arith, h.limited, h.fits);
    distinct = ground (arith, h.distinct, Distinct-append_one c.items v);
  },
  ground (arith, contains-append c.items (v ∷ []) w, str_eq_iff v w),
)
