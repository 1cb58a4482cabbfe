-- ===== src/Sketch/SpaceSaving.antt =====
-- The Space-Saving counters of src/agfast_parts/sketches.c.
pub mod Counters
mod Raise
pub mod Step
pub mod Guarantee
mod Tests
use mathlib.Core.Option
use agent_guard_fast_path.Common.{
  ℕ, zero, suc, ◌+◌, Option, none, some, List, [], ◌∷◌, ◌++◌, Str, str_eq, u64, ltb, if◌then◌else◌,
  is_empty, length, get_or, set,
}
use agent_guard_fast_path.Text.{copy_trunc}

-- `AGF_MAX_STR` and `AGF_SPACE_SAVING_K`
abbrev pub max_str : ℕ
max_str = 512

abbrev pub space_saving_k : ℕ
space_saving_k = 16

-- `space_saving_item_t`
pub record Item : Type 0 where
  pub key : Str
  pub count : ℕ
  pub error : ℕ

abbrev pub empty_item : Item
empty_item = record { key = []; count = 0; error = 0 }

-- `space_saving_t`: the `used` first entries of its array, and `used` is their number. The entries
-- behind them are cleared and never read.
abbrev pub SpaceSaving : Type 0
SpaceSaving = List Item

abbrev pub ss_init : SpaceSaving
ss_init = []

-- The first loop: one more for the first entry with this key; `none` if there is none.
pub bump : Str → List Item → Option (List Item)
bump key [] = none
bump key (it ∷ items) =
    let rest = Option.map (λ r. it ∷ r) (bump key items) in
    if str_eq it.key key then some (record it { count = u64 (it.count + 1) } ∷ items) else rest

-- The third loop: the first entry of the least count, `best` so far; `i` is the next index.
pub min_from : List Item → ℕ → ℕ → ℕ → ℕ
min_from [] i best least = best
min_from (it ∷ items) i best least =
    if ltb it.count least
    then min_from items (i + 1) i it.count
    else min_from items (i + 1) best least

unfoldable pub min_index : List Item → ℕ
unfolding min_from
min_index [] = 0
min_index (it ∷ items) = min_from items 1 0 it.count

unfoldable pub evict : Str → List Item → List Item
unfolding min_index
evict key items =
    let i = min_index items in
    let victim = get_or items i empty_item in
    set items i (record {
      key = copy_trunc victim.key max_str key;
      count = u64 (victim.count + 1);
      error = victim.count;
    })

unfoldable pub ss_update : SpaceSaving → Str → SpaceSaving
unfolding bump evict
ss_update ss key = if is_empty key then ss else elim (bump key ss) [
  | some items ↦ items
  | none ↦
      if ltb (length ss) space_saving_k
      then ss ++ (record { key = copy_trunc [] max_str key; count = 1; error = 0 } ∷ [])
      else evict key ss
]
