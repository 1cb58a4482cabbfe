-- ===== src/Policy/Tests.antt =====
-- The theorems on policies, at a small policy file.
use agent_guard_fast_path.Common.{
  ◌⊎◌, length, ◌≡◌, refl, true, ◌||◌, Option, none, some, [], ◌∷◌, Str, str_eq, ℤ, pos, leb, ◌&&◌,
  ◌-◌, if◌then◌else◌,
}
use agent_guard_fast_path.Text.{codes, contains_glob, strchr, skip_ws}
use agent_guard_fast_path.StringList.{
  empty_list, list_add, list_contains_exact, list_matches_pattern,
}
use agent_guard_fast_path.Sketch.Bloom.{bloom_init}
use agent_guard_fast_path.Json.{
  needle, parse_json_string_token, after_key, strstr, strchr_from, starts_with, json_get_int,
  json_get_long, token_from,
}
use agent_guard_fast_path.Policy.{
  Entries, add_entry, round_at, array_rounds, parse_policy_array, policy_init, policy_load, weight,
  parse_risk_weights, risk_weights_set_defaults, policy_is_blocked_domain, policy_is_blocked_ip,
  policy_is_watched_process, policy_check_ip_with_details, policy_check_domain_with_details,
  policy_is_sensitive_file, policy_check_file_with_details,
}
use agent_guard_fast_path.Policy.Fuel.{Ends, parse_policy_array-Ends}
use agent_guard_fast_path.Policy.Matches.{policy_load-exact}
use agent_guard_fast_path.Policy.Weights.{Bounded, policy_load-Bounded}

abbrev text : Str
text = codes "{\"sensitive_files\": [\"/etc/shadow\", \"/root/*\"], \"sensitive_file\": 7}"

-- A number of one digit.
abbrev strtol : Str → Option ℤ
strtol [] = none
strtol (c ∷ s) = if leb b'0' c && leb c b'9' then some (pos (c - b'0')) else none

abbrev few : Entries
few = record { exact = empty_list; patterns = empty_list; bloom = bloom_init 64 2 }

two_entries :
    let es = parse_policy_array text (codes "sensitive_files") true few in
    (es.exact.items ≡ codes "/etc/shadow" ∷ []) × (es.patterns.items ≡ codes "/root/*" ∷ [])
unfolding parse_policy_array array_rounds round_at add_entry after_key strstr strchr_from
    starts_with parse_json_string_token token_from skip_ws contains_glob strchr list_add
two_entries = (refl, refl)

new_weight : (parse_risk_weights strtol text risk_weights_set_defaults).sensitive_file ≡ pos 7
unfolding parse_risk_weights weight json_get_int json_get_long after_key strstr strchr_from
    starts_with skip_ws
new_weight = refl

parse_policy_array-Ends_example :
    let start = after_key text (needle 128 (codes "sensitive_files")) b'[' in
    let out = parse_policy_array text (codes "sensitive_files") true few in
    ((start ≡ none) × (out ≡ few)) ⊎ ((p : Str) × (start ≡ some p) × Ends true (length p) p few out)
parse_policy_array-Ends_example = parse_policy_array-Ends text (codes "sensitive_files") true few

policy_load-exact_example :
    let p = policy_load strtol text policy_init in
    let v = codes "/etc/shadow" in
    let sensitive =
      list_contains_exact p.sensitive_files v
      || list_matches_pattern str_eq p.sensitive_file_patterns v in
    (policy_is_blocked_domain p v ≡ list_contains_exact p.blocked_domains v)
    × (policy_is_blocked_ip p v ≡ list_contains_exact p.blocked_ips v)
    × (policy_is_watched_process p v ≡ list_contains_exact p.watched_processes v)
    × (policy_is_sensitive_file str_eq p v ≡ sensitive)
    × ((policy_check_domain_with_details p v).0 ≡ policy_is_blocked_domain p v)
    × ((policy_check_ip_with_details p v).0 ≡ policy_is_blocked_ip p v)
    × ((policy_check_file_with_details str_eq p v).0 ≡ policy_is_sensitive_file str_eq p v)
policy_load-exact_example = policy_load-exact strtol str_eq text (codes "/etc/shadow")

policy_load-Bounded_example : Bounded (policy_load strtol text policy_init).weights
policy_load-Bounded_example = policy_load-Bounded strtol text
