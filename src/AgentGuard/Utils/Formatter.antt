-- ===== src/AgentGuard/Utils/Formatter.antt =====
-- src/utils.c: the JSON formatter. An object is written into a buffer of `buflen` bytes.
pub mod Layout
use agent_guard_fast_path.Common.{
  ℕ, zero, suc, ◌+◌, ◌-◌, Bool, true, false, ◌&&◌, Option, none, some, List, [], ◌∷◌, ◌++◌, Str,
  ltb, ◌==◌, if◌then◌else◌, length, get_or, take, ℤ,
}
use agent_guard_fast_path.Text.{codes}
use agent_guard_fast_path.AgentGuard.Utils.{show_ld}

-- The text of the buffer and `*pos`.
pub record Out : Type 0 where
  pub text : Str
  pub at : ℕ

-- `*pos += snprintf(buf + *pos, buflen - *pos, ...)`, for the whole text `s`. Above `buflen` the size
-- that it passes wraps around.
unfoldable pub append : ℕ → Out → Str → Option Out
append buflen o s =
    if ltb buflen o.at
    then none
    else some (record {
      text = if o.at == buflen then o.text else take o.at o.text ++ take (buflen - o.at - 1) s;
      at = o.at + length s;
    })

-- The buffer of an object that is begun is new.
unfoldable pub ag_json_begin_object : ℕ → Option Out
unfolding append
ag_json_begin_object buflen = append buflen (record { text = []; at = 0 }) (codes "{")

unfoldable pub ag_json_end_object : ℕ → Out → Option Out
unfolding append
ag_json_end_object buflen o =
    if ltb buflen o.at
    then none
    else if ltb 0 o.at && (get_or o.text (o.at - 1) 0 == b',')
    then append buflen (record o { at = o.at - 1 }) (codes "}")
    else append buflen o (codes "}")

-- What is added to an object, and its text without the comma.
pub data Field : Type 0 where
  text_field : Str → Str → Field
  int_field : Str → ℤ → Field

unfoldable pub piece : Field → Str
unfolding show_ld
piece (text_field key val) = b'"' ∷ key ++ codes "\":\"" ++ val ++ codes "\""
piece (int_field key val) = b'"' ∷ key ++ codes "\":" ++ show_ld val

-- `ag_json_add_string` and `ag_json_add_int`
unfoldable pub ag_json_add : ℕ → Out → Field → Option Out
unfolding append piece
ag_json_add buflen o f = append buflen o (piece f ++ b',' ∷ [])

-- The fields that are added one after the other.
unfoldable pub add_all : ℕ → Out → List Field → Option Out
unfolding ag_json_add
add_all buflen o [] = some o
add_all buflen o (f ∷ fs) = elim (ag_json_add buflen o f) [
  | none ↦ none
  | some next ↦ add_all buflen next fs
]

-- An object with these fields, `none` if the buffer is overrun.
unfoldable pub json_object : ℕ → List Field → Option Out
unfolding ag_json_begin_object add_all ag_json_end_object
json_object buflen fs = elim (ag_json_begin_object buflen) [
  | none ↦ none
  | some o ↦ elim (add_all buflen o fs) [ none ↦ none | some end ↦ ag_json_end_object buflen end ]
]
