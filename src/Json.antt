-- ===== src/Json.antt =====
-- The JSON readers of src/agfast_parts/policy.c, which look for a quoted key and read what follows.
-- A cursor is the rest of the text; the text ends at its first NUL. What a failed read leaves behind
-- in its buffer is not modelled.
pub mod RoundTrip
pub mod Cursor
mod Tests
use mathlib.Core.Option
use agent_guard_fast_path.Common.{
  ℕ, ◌+◌, ◌-◌, Bool, true, false, not, ◌&&◌, Option, none, some, List, [], ◌∷◌, ◌++◌, Str, ltb,
  ◌==◌, if◌then◌else◌, take, ℤ, pos, negsuc,
}
use agent_guard_fast_path.Text.{skip_ws}

unfoldable pub starts_with : Str → Str → Bool
starts_with s [] = true
starts_with [] (y ∷ ys) = false
starts_with (x ∷ s) (y ∷ ys) = (x == y) && starts_with s ys

-- The suffix that `strstr` points to, and the one that `strchr` points to.
unfoldable pub strstr : Str → Str → Option Str
unfolding starts_with
strstr [] needle = if starts_with [] needle then some [] else none
strstr (x ∷ s) needle =
    let rest = strstr s needle in if starts_with (x ∷ s) needle then some (x ∷ s) else rest

unfoldable pub strchr_from : Str → ℕ → Option Str
strchr_from [] c = none
strchr_from (x ∷ s) c = let rest = strchr_from s c in if x == c then some (x ∷ s) else rest

-- The byte that an escape stands for.
unfoldable pub unescape : ℕ → ℕ
unescape c =
    if c == b'n' then b'\n' else if c == b'r' then b'\r' else if c == b't' then b'\t' else c

-- The bytes behind the opening quote: those stored, `n` of them before, and the cursor behind the
-- closing quote; `none` if there is none. `escaped` says that a `\` has just opened an escape.
unfoldable pub token_from : ℕ → ℕ → Bool → Str → Option (Str × Str)
unfolding unescape
token_from out_size n escaped [] = none
token_from out_size n escaped (c ∷ p) =
    let opens = not escaped && c == b'\\' in
    let stored = not opens && ltb (n + 1) out_size in
    let rest = token_from out_size (if stored then n + 1 else n) opens p in
    let byte = if escaped then unescape c else c in
    if not escaped && c == b'"'
    then some ([], p)
    else Option.map (λ (r : Str × Str). (if stored then byte ∷ r.0 else r.0, r.1)) rest

unfoldable pub open_token : Str → ℕ → Option (Str × Str)
open_token [] out_size = none
open_token (c ∷ p) out_size = if c == b'"' then token_from out_size 0 false p else none

-- The token and the new cursor.
unfoldable pub parse_json_string_token : Str → ℕ → Option (Str × Str)
unfolding open_token
parse_json_string_token cursor out_size = open_token (skip_ws cursor) out_size

-- `snprintf` into a buffer of `size` bytes.
abbrev pub needle : ℕ → Str → Str
needle size key = take (size - 1) (b'"' ∷ (key ++ (b'"' ∷ [])))

-- What follows the first `mark` behind the first occurrence of the needle.
unfoldable pub after_key : Str → Str → ℕ → Option Str
unfolding strstr strchr_from
after_key json key_needle mark = elim (strstr json key_needle) [
  | none ↦ none
  | some at_key ↦ elim (strchr_from at_key mark) [
    | none ↦ none
    | some [] ↦ none
    | some (c ∷ p) ↦ some p
  ]
]

unfoldable pub json_get_string : Str → Str → ℕ → Option Str
json_get_string json key out_size = elim (after_key json (needle 96 key) b':') [
  | none ↦ none
  | some p ↦ Option.map (λ (r : Str × Str). r.0) (parse_json_string_token p out_size)
]

-- Kept between -1000000 and 1000000.
unfoldable pub clamp : ℤ → ℤ
clamp (pos n) = pos (if ltb 1000000 n then 1000000 else n)
clamp (negsuc n) = negsuc (if ltb 999999 n then 999999 else n)

-- `strtol p` is the library's number at the start of `p`, or `none` where it converts nothing or
-- sets `errno`.
module _ (strtol : Str → Option ℤ) where
  unfoldable pub json_get_long : Str → Str → Option ℤ
  json_get_long json key = elim (after_key json (needle 96 key) b':') [
    | none ↦ none
    | some p ↦ strtol (skip_ws p)
  ]

  unfoldable pub json_get_int : Str → Str → Option ℤ
  unfolding clamp json_get_long
  json_get_int json key = Option.map clamp (json_get_long json key)
