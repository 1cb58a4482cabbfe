-- ===== src/Parser/Csv.antt =====
-- src/agfast_parts/parser.c: the fields of a line of CSV.
use agent_guard_fast_path.Common.{
  ℕ, zero, suc, ◌-◌, List, [], ◌∷◌, ◌++◌, Str, ltb, ◌==◌, if◌then◌else◌,
}

-- A byte into a field with room for `left` more, in front of what is read behind it.
abbrev pub put : ℕ → ℕ → Str × Str → Str × Str
put left c (s, p) = (if ltb 0 left then c ∷ s else s, p)

-- The loop over a field that is not quoted: the field and where it stops.
unfoldable pub plain_field : ℕ → Str → Str × Str
plain_field left [] = ([], [])
plain_field left (c ∷ p) =
    let rest = plain_field (left - 1) p in if c == b',' then ([], c ∷ p) else put left c rest

-- The loop over a quoted field, behind its quote; two quotes stand for one.
unfoldable pub quoted_field : ℕ → Str → Str × Str
quoted_field left [] = ([], [])
quoted_field left (c ∷ []) = if c == b'"' then ([], []) else put left c ([], [])
quoted_field left (c ∷ d ∷ p) =
    let after_pair = quoted_field (left - 1) p in
    let after_one = quoted_field (left - 1) (d ∷ p) in
    if c == b'"'
    then if d == b'"' then put left b'"' after_pair else ([], d ∷ p)
    else put left c after_one

-- `AGF_MAX_STR - 1` bytes fit a field.
unfoldable pub one_field : Str → Str × Str
unfolding plain_field quoted_field
one_field [] = ([], [])
one_field (c ∷ p) = if c == b'"' then quoted_field 511 p else plain_field 511 (c ∷ p)

-- Behind the next comma.
unfoldable pub behind_comma : Str → Str
behind_comma [] = []
behind_comma (c ∷ p) = let rest = behind_comma p in if c == b',' then p else rest

-- At most `max_fields` fields.
unfoldable pub csv_fields : ℕ → Str → List Str
unfolding one_field behind_comma
csv_fields zero p = []
csv_fields (suc n) [] = []
csv_fields (suc n) (c ∷ p) =
    let (s, rest) = one_field (c ∷ p) in s ∷ csv_fields n (behind_comma rest)

-- A field between quotes, with its quotes doubled, and the fields of a line.
unfoldable pub doubled : Str → Str
doubled [] = []
doubled (c ∷ s) = if c == b'"' then b'"' ∷ b'"' ∷ doubled s else c ∷ doubled s

unfoldable pub csv_line : List Str → Str
unfolding doubled
csv_line [] = []
csv_line (s ∷ []) = b'"' ∷ (doubled s ++ b'"' ∷ [])
csv_line (s ∷ t ∷ fields) = b'"' ∷ (doubled s ++ b'"' ∷ b',' ∷ csv_line (t ∷ fields))
