-- ===== src/Policy/Matches.antt =====
-- What a loaded policy matches.
use agent_guard_fast_path.Common.{
  ◌≡◌, sym, ap, ◌∙◌, Bool, true, false, false≢true, ◌&&◌, ◌||◌, Str, Option, arith, ℤ,
}
use agent_guard_fast_path.Text.{codes}
use agent_guard_fast_path.StringList.{
  StringList, contains, empty_list, list_contains_exact, list_matches_pattern,
}
use agent_guard_fast_path.Sketch.Bloom.{Bloom, bloom_init, bloom_might_contain}
use agent_guard_fast_path.Sketch.Bloom.Membership.{bloom_init_lem}
use agent_guard_fast_path.Policy.{
  Policy, bloom_bits, bloom_hashes, exact_only, policy_init, policy_load,
  policy_match_exact_with_bloom, policy_is_blocked_domain, policy_is_blocked_ip,
  policy_is_watched_process, policy_check_ip_with_details, policy_check_domain_with_details,
  policy_is_sensitive_file, policy_check_file_with_details,
}
use agent_guard_fast_path.Policy.Lists.{Covers, parse_policy_array-Covers}

-- Where the Bloom filter covers the list, the test behind it is the exact one.
pub policy_match-Covers :
    (bloom : Bloom) (list : StringList) (v : Str)
    → Covers bloom list
    → policy_match_exact_with_bloom bloom list v ≡ list_contains_exact list v
unfolding policy_match_exact_with_bloom bloom_might_contain
policy_match-Covers bloom list v c = ground (arith, c.reports v)

-- The same for the test that does not look at the empty string first.
pub possible-Covers :
    (bloom : Bloom) (list : StringList) (v : Str)
    → Covers bloom list
    → (bloom_might_contain bloom v && list_contains_exact list v) ≡ list_contains_exact list v
possible-Covers bloom list v c = ground (arith, c.reports v)

-- What every policy keeps: each of its Bloom filters covers its list.
pub record Serves (p : Policy) : Type 0 where
  pub files : Covers p.sensitive_files_bloom p.sensitive_files
  pub domains : Covers p.blocked_domains_bloom p.blocked_domains
  pub ips : Covers p.blocked_ips_bloom p.blocked_ips
  pub processes : Covers p.watched_processes_bloom p.watched_processes

init-Covers : Covers (bloom_init bloom_bits bloom_hashes) empty_list
unfolding list_contains_exact contains
init-Covers = record {
  room = (bloom_init_lem bloom_bits bloom_hashes (omega arith) (omega arith)).0;
  reports = λ w h. absurd (false≢true h);
}

policy_init-Serves : Serves policy_init
unfolding policy_init
policy_init-Serves = record {
  files = init-Covers;
  domains = init-Covers;
  ips = init-Covers;
  processes = init-Covers;
}

policy_load-Serves :
    (strtol : Str → Option ℤ) (json : Str) (p : Policy)
    → Serves p
    → Serves (policy_load strtol json p)
unfolding policy_load
policy_load-Serves strtol json p s = record {
  files =
      parse_policy_array-Covers json (codes "sensitive_files") true
        (record {
          exact = p.sensitive_files;
          patterns = p.sensitive_file_patterns;
          bloom = p.sensitive_files_bloom;
        })
        s.files;
  domains =
      parse_policy_array-Covers json (codes "blocked_domains") false
        (exact_only p.blocked_domains p.blocked_domains_bloom) s.domains;
  ips =
      parse_policy_array-Covers json (codes "blocked_ips") false
        (exact_only p.blocked_ips p.blocked_ips_bloom) s.ips;
  processes =
      parse_policy_array-Covers json (codes "watched_processes") false
        (exact_only p.watched_processes p.watched_processes_bloom) s.processes;
}

-- The policy that is loaded from any text answers every query exactly: no Bloom filter changes a
-- result, and the checks with details agree with the plain ones.
pub policy_load-exact :
    (strtol : Str → Option ℤ) (fnmatch : Str → Str → Bool) (json v : Str)
    → let p = policy_load strtol json policy_init in
      let sensitive =
        list_contains_exact p.sensitive_files v
        || list_matches_pattern fnmatch p.sensitive_file_patterns v in
      (policy_is_blocked_domain p v ≡ list_contains_exact p.blocked_domains v)
      × (policy_is_blocked_ip p v ≡ list_contains_exact p.blocked_ips v)
      × (policy_is_watched_process p v ≡ list_contains_exact p.watched_processes v)
      × (policy_is_sensitive_file fnmatch p v ≡ sensitive)
      × ((policy_check_domain_with_details p v).0 ≡ policy_is_blocked_domain p v)
      × ((policy_check_ip_with_details p v).0 ≡ policy_is_blocked_ip p v)
      × ((policy_check_file_with_details fnmatch p v).0 ≡ policy_is_sensitive_file fnmatch p v)
unfolding policy_is_blocked_domain policy_is_blocked_ip policy_is_watched_process
    policy_is_sensitive_file policy_check_domain_with_details policy_check_ip_with_details
    policy_check_file_with_details
policy_load-exact strtol fnmatch json v =
    let p = policy_load strtol json policy_init in
    let s = policy_load-Serves strtol json policy_init policy_init-Serves in
    let or_pattern : Bool → Bool =
      λ b. b || list_matches_pattern fnmatch p.sensitive_file_patterns v in
    let file = policy_match-Covers p.sensitive_files_bloom p.sensitive_files v s.files in
    let domain = policy_match-Covers p.blocked_domains_bloom p.blocked_domains v s.domains in
    let ip = policy_match-Covers p.blocked_ips_bloom p.blocked_ips v s.ips in
    let process = policy_match-Covers p.watched_processes_bloom p.watched_processes v s.processes in
    (
      domain,
      ip,
      process,
      ap or_pattern file,
      possible-Covers p.blocked_domains_bloom p.blocked_domains v s.domains ∙ sym domain,
      possible-Covers p.blocked_ips_bloom p.blocked_ips v s.ips ∙ sym ip,
      ap or_pattern
          (possible-Covers p.sensitive_files_bloom p.sensitive_files v s.files ∙ sym file),
    )
