-- ===== src/Policy.antt =====
-- src/agfast_parts/policy.c: the lists of a policy, each behind a Bloom filter, and the weights of
-- the risk score. The text of the file is a parameter of `policy_load`, up to its first NUL.
pub mod Lists
pub mod Fuel
pub mod Matches
pub mod Weights
mod Tests
use mathlib.Core.Option
use agent_guard_fast_path.Common.{
  ℕ, zero, suc, ◌^◌, Bool, true, false, ◌&&◌, ◌||◌, Option, none, some, List, [], ◌∷◌, Str, ◌==◌,
  if◌then◌else◌, is_empty, length, ℤ, pos, negsuc,
}
use agent_guard_fast_path.Text.{codes, contains_glob, skip_ws}
use agent_guard_fast_path.StringList.{
  StringList, empty_list, list_add, list_contains_exact, list_matches_pattern,
}
use agent_guard_fast_path.Sketch.Bloom.{Bloom, bloom_init, bloom_add, bloom_might_contain}
use agent_guard_fast_path.Json.{parse_json_string_token, needle, after_key, json_get_int}

-- `AGF_MAX_STR`, `AGF_BLOOM_BITS` and `AGF_BLOOM_HASHES`
abbrev pub max_str : ℕ
max_str = 512

abbrev pub bloom_bits : ℕ
bloom_bits = 2 ^ 20

abbrev pub bloom_hashes : ℕ
bloom_hashes = 7

-- `risk_weights_t`
pub record RiskWeights : Type 0 where
  pub watched_process : ℤ
  pub sensitive_file : ℤ
  pub blocked_ip : ℤ
  pub blocked_domain : ℤ
  pub network_after_file : ℤ
  pub high_unique_destinations : ℤ
  pub high_event_volume : ℤ
  pub high_unique_destination_threshold : ℤ
  pub high_event_volume_threshold : ℤ

unfoldable pub risk_weights_set_defaults : RiskWeights
risk_weights_set_defaults = record {
  watched_process = pos 10;
  sensitive_file = pos 25;
  blocked_ip = pos 35;
  blocked_domain = pos 35;
  network_after_file = pos 30;
  high_unique_destinations = pos 15;
  high_event_volume = pos 10;
  high_unique_destination_threshold = pos 10;
  high_event_volume_threshold = pos 100;
}

-- `policy_t`
pub record Policy : Type 0 where
  pub sensitive_files : StringList
  pub sensitive_file_patterns : StringList
  pub blocked_domains : StringList
  pub blocked_ips : StringList
  pub watched_processes : StringList
  pub sensitive_files_bloom : Bloom
  pub blocked_domains_bloom : Bloom
  pub blocked_ips_bloom : Bloom
  pub watched_processes_bloom : Bloom
  pub weights : RiskWeights

-- What `parse_policy_array` fills: `exact`, `patterns` and `bloom`.
pub record Entries : Type 0 where
  pub exact : StringList
  pub patterns : StringList
  pub bloom : Bloom

-- One value of the array; `has_patterns` says that `patterns` is not NULL.
unfoldable pub add_entry : Bool → Str → Entries → Entries
add_entry has_patterns value es =
    if contains_glob value && has_patterns
    then record es { patterns = list_add es.patterns value }
    else record es { exact = list_add es.exact value; bloom = bloom_add es.bloom value }

-- One round of the loop `while (*p)`: the new cursor and entries, or `none` where the loop ends.
unfoldable pub round_at : Bool → Str → Entries → Option (Str × Entries)
round_at has_patterns [] es = none
round_at has_patterns (c ∷ p) es =
    if c == b']'
    then none
    else if c == b','
    then some (p, es)
    else Option.map (λ (r : Str × Str). (r.1, add_entry has_patterns r.0 es))
        (parse_json_string_token (c ∷ p) max_str)

unfoldable pub array_rounds : ℕ → Bool → Str → Entries → Entries
unfolding round_at
array_rounds zero has_patterns p es = es
array_rounds (suc fuel) has_patterns p es = elim (round_at has_patterns (skip_ws p) es) [
  | none ↦ es
  | some r ↦ array_rounds fuel has_patterns r.0 r.1
]

-- A round that is not the last one moves `p` forward, so the length of the text is enough.
unfoldable pub parse_policy_array : Str → Str → Bool → Entries → Entries
unfolding array_rounds
parse_policy_array json key has_patterns es = elim (after_key json (needle 128 key) b'[') [
  | none ↦ es
  | some p ↦ array_rounds (length p) has_patterns p es
]

module _ (strtol : Str → Option ℤ) where
  -- The number under a key, or the weight there was.
  unfoldable pub weight : Str → Str → ℤ → ℤ
  weight json key w = elim (json_get_int strtol json key) [ none ↦ w | some v ↦ v ]

  unfoldable pub parse_risk_weights : Str → RiskWeights → RiskWeights
  unfolding weight
  parse_risk_weights json w = record {
    watched_process = weight json (codes "watched_process") w.watched_process;
    sensitive_file = weight json (codes "sensitive_file") w.sensitive_file;
    blocked_ip = weight json (codes "blocked_ip") w.blocked_ip;
    blocked_domain = weight json (codes "blocked_domain") w.blocked_domain;
    network_after_file = weight json (codes "network_after_file") w.network_after_file;
    high_unique_destinations =
        weight json (codes "high_unique_destinations") w.high_unique_destinations;
    high_event_volume = weight json (codes "high_event_volume") w.high_event_volume;
    high_unique_destination_threshold =
        weight json (codes "high_unique_destination_threshold") w.high_unique_destination_threshold;
    high_event_volume_threshold =
        weight json (codes "high_event_volume_threshold") w.high_event_volume_threshold;
  }

unfoldable pub policy_init : Policy
policy_init = record {
  sensitive_files = empty_list;
  sensitive_file_patterns = empty_list;
  blocked_domains = empty_list;
  blocked_ips = empty_list;
  watched_processes = empty_list;
  sensitive_files_bloom = bloom_init bloom_bits bloom_hashes;
  blocked_domains_bloom = bloom_init bloom_bits bloom_hashes;
  blocked_ips_bloom = bloom_init bloom_bits bloom_hashes;
  watched_processes_bloom = bloom_init bloom_bits bloom_hashes;
  weights = risk_weights_set_defaults;
}

-- The lists without patterns; `patterns` is not used.
abbrev pub exact_only : StringList → Bloom → Entries
exact_only exact bloom = record { exact = exact; patterns = empty_list; bloom = bloom }

unfoldable pub policy_load : (Str → Option ℤ) → Str → Policy → Policy
unfolding parse_policy_array parse_risk_weights
policy_load strtol json p =
    let files = parse_policy_array json (codes "sensitive_files") true (record {
      exact = p.sensitive_files;
      patterns = p.sensitive_file_patterns;
      bloom = p.sensitive_files_bloom;
    }) in
    let domains =
      parse_policy_array json (codes "blocked_domains") false
        (exact_only p.blocked_domains p.blocked_domains_bloom) in
    let ips =
      parse_policy_array json (codes "blocked_ips") false
        (exact_only p.blocked_ips p.blocked_ips_bloom) in
    let processes =
      parse_policy_array json (codes "watched_processes") false
        (exact_only p.watched_processes p.watched_processes_bloom) in
    record {
      sensitive_files = files.exact;
      sensitive_file_patterns = files.patterns;
      blocked_domains = domains.exact;
      blocked_ips = ips.exact;
      watched_processes = processes.exact;
      sensitive_files_bloom = files.bloom;
      blocked_domains_bloom = domains.bloom;
      blocked_ips_bloom = ips.bloom;
      watched_processes_bloom = processes.bloom;
      weights = parse_risk_weights strtol json p.weights;
    }

unfoldable pub policy_match_exact_with_bloom : Bloom → StringList → Str → Bool
policy_match_exact_with_bloom bloom list value =
    if is_empty value
    then false
    else if bloom_might_contain bloom value
    then list_contains_exact list value
    else false

unfoldable pub policy_is_blocked_domain : Policy → Str → Bool
policy_is_blocked_domain p domain =
    policy_match_exact_with_bloom p.blocked_domains_bloom p.blocked_domains domain

unfoldable pub policy_is_blocked_ip : Policy → Str → Bool
policy_is_blocked_ip p ip = policy_match_exact_with_bloom p.blocked_ips_bloom p.blocked_ips ip

unfoldable pub policy_is_watched_process : Policy → Str → Bool
policy_is_watched_process p process =
    policy_match_exact_with_bloom p.watched_processes_bloom p.watched_processes process

-- The checks with details return the answer of the Bloom filter, and of the patterns, with the result.
unfoldable pub policy_check_ip_with_details : Policy → Str → Bool × Bool
policy_check_ip_with_details p ip =
    let possible = bloom_might_contain p.blocked_ips_bloom ip in
    (possible && list_contains_exact p.blocked_ips ip, possible)

unfoldable pub policy_check_domain_with_details : Policy → Str → Bool × Bool
policy_check_domain_with_details p domain =
    let possible = bloom_might_contain p.blocked_domains_bloom domain in
    (possible && list_contains_exact p.blocked_domains domain, possible)

module _ (fnmatch : Str → Str → Bool) where
  unfoldable pub policy_is_sensitive_file : Policy → Str → Bool
  policy_is_sensitive_file p file =
      policy_match_exact_with_bloom p.sensitive_files_bloom p.sensitive_files file
      || list_matches_pattern fnmatch p.sensitive_file_patterns file

  unfoldable pub policy_check_file_with_details : Policy → Str → Bool × Bool × Bool
  policy_check_file_with_details p file =
      let possible = bloom_might_contain p.sensitive_files_bloom file in
      let pattern = list_matches_pattern fnmatch p.sensitive_file_patterns file in
      (possible && list_contains_exact p.sensitive_files file || pattern, possible, pattern)
