-- ===== src/Sketch/Cms.antt =====
-- The Count-Min Sketch of src/agfast_parts/sketches.c. A failing `calloc` ends the program.
pub mod Cells
pub mod Stream
pub mod Bounds
mod Tests
use agent_guard_fast_path.Common.{
  ℕ, zero, suc, ◌+◌, ◌*◌, ◌%◌, List, [], ◌∷◌, Str, bit_xor, u32, u64, u64_max, ltb, ◌==◌,
  if◌then◌else◌, is_empty, get_or, set, replicate,
}
use agent_guard_fast_path.Hash.{fnv1a64, mix64}

-- `cms_t`: row `r`, column `c` is entry `r * width + c` of the table.
pub record Cms : Type 0 where
  pub width : ℕ
  pub depth : ℕ
  pub table : List ℕ

unfoldable pub cms_init : ℕ → ℕ → Cms
cms_init width depth = record { width = width; depth = depth; table = replicate (width * depth) 0 }

abbrev pub cms_h1 : Str → ℕ
cms_h1 key = fnv1a64 key

abbrev pub cms_h2 : Str → ℕ
cms_h2 key = mix64 (bit_xor (fnv1a64 key) 0xa0761d6478bd642f)

-- The column of a key in a row. `row * 0x9e3779b9u` is a product of 32-bit integers.
unfoldable pub cms_col : ℕ → Str → ℕ → ℕ
cms_col width key row =
    u32 (u64 (cms_h1 key + u64 (row * cms_h2 key) + u32 (row * 0x9e3779b9)) % width)

unfoldable pub cms_index : ℕ → Str → ℕ → ℕ
unfolding cms_col
cms_index width key row = u64 (u64 (row * width) + cms_col width key row)

-- The rows from `row` on, with `left` of them to go.
pub add_rows : ℕ → Str → ℕ → ℕ → ℕ → List ℕ → List ℕ
add_rows width key delta zero row table = table
add_rows width key delta (suc left) row table =
    let i = cms_index width key row in
    add_rows width key delta left (row + 1) (set table i (u64 (get_or table i 0 + delta)))

unfoldable pub cms_add : Cms → Str → ℕ → Cms
unfolding add_rows cms_index
cms_add cms key delta =
    if is_empty key
    then cms
    else record cms { table = add_rows cms.width key delta cms.depth 0 cms.table }

pub best_rows : ℕ → Str → List ℕ → ℕ → ℕ → ℕ → ℕ
best_rows width key table zero row best = best
best_rows width key table (suc left) row best =
    let v = get_or table (cms_index width key row) 0 in
    best_rows width key table left (row + 1) (if ltb v best then v else best)

unfoldable pub cms_estimate : Cms → Str → ℕ
unfolding best_rows cms_index
cms_estimate cms key =
    if is_empty key
    then 0
    else let best = best_rows cms.width key cms.table cms.depth 0 u64_max in
      if best == u64_max then 0 else best
