-- ===== src/Json/Tests.antt =====
-- The theorems on the JSON readers, at a file name with a quote and a tab.
use agent_guard_fast_path.Common.{◌≡◌, refl, inl, inr, some, [], ◌∷◌, ◌++◌, Str, arith, take}
use agent_guard_fast_path.Text.{codes, json_write_string, skip_ws}
use agent_guard_fast_path.Json.{
  parse_json_string_token, json_get_string, strstr, strchr_from, after_key, starts_with, token_from,
}
use agent_guard_fast_path.Json.RoundTrip.{parse_json_string_token-json_write_string}
use agent_guard_fast_path.Json.Cursor.{Fits, parse_json_string_token-Fits}

abbrev odd_name : Str
odd_name = b'a' ∷ b'"' ∷ b'\t' ∷ []

abbrev line : Str
line = codes " \"x\\ny\", 2"

reads :
    json_get_string (codes "{\"k\": \"a\\tb\"}") (codes "k") 512 ≡ some (b'a' ∷ b'\t' ∷ b'b' ∷ [])
unfolding json_get_string after_key strstr strchr_from starts_with parse_json_string_token skip_ws
    token_from
reads = refl

parse_json_string_token-json_write_string_example :
    parse_json_string_token (json_write_string odd_name ++ codes ", 1") 3
    ≡ some (take 2 odd_name, codes ", 1")
parse_json_string_token-json_write_string_example =
    parse_json_string_token-json_write_string odd_name (codes ", 1") 3
      (inl (omega arith), (inl (omega arith), (inr (inr (inr refl)), tt)))

parse_json_string_token-Fits_example : Fits 2 0 line (parse_json_string_token line 2)
parse_json_string_token-Fits_example = parse_json_string_token-Fits line 2 (omega arith)
