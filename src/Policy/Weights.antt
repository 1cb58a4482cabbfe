-- ===== src/Policy/Weights.antt =====
-- The weights of a policy are bounded.
use agent_guard_fast_path.Common.{
  ◌≤◌, ◌<◌, Option, Str, arith, inl, inr, Option-cases, ℤ, pos, negsuc,
}
use Prim.Native.String.{String}
use agent_guard_fast_path.Text.{codes}
use agent_guard_fast_path.Json.{json_get_long, json_get_int, clamp}
use agent_guard_fast_path.Policy.{
  RiskWeights, weight, parse_risk_weights, risk_weights_set_defaults, policy_init, policy_load,
}

-- Between -1000000 and 1000000.
abbrev pub IsWeight : ℤ → Type 0
IsWeight (pos n) = n ≤ 1000000
IsWeight (negsuc n) = n < 1000000

clamp-IsWeight : (z : ℤ) → IsWeight (clamp z)
unfolding clamp
clamp-IsWeight (pos n) = ground arith
clamp-IsWeight (negsuc n) = ground arith

-- All nine weights are.
pub record Bounded (w : RiskWeights) : Type 0 where
  pub watched : IsWeight w.watched_process
  pub sensitive : IsWeight w.sensitive_file
  pub ip : IsWeight w.blocked_ip
  pub domain : IsWeight w.blocked_domain
  pub network : IsWeight w.network_after_file
  pub destinations : IsWeight w.high_unique_destinations
  pub volume : IsWeight w.high_event_volume
  pub destination_threshold : IsWeight w.high_unique_destination_threshold
  pub volume_threshold : IsWeight w.high_event_volume_threshold

weight-IsWeight :
    (strtol : Str → Option ℤ) (json key : Str) (w : ℤ)
    → IsWeight w
    → IsWeight (weight strtol json key w)
unfolding weight json_get_int
weight-IsWeight strtol json key w h = elim (Option-cases (json_get_long strtol json key)) [
  | inl e ↦ rw (weight, e) h
  | inr (v, e) ↦ rw (weight, e) (clamp-IsWeight v)
]

parse_risk_weights-Bounded :
    (strtol : Str → Option ℤ) (json : Str) (w : RiskWeights)
    → Bounded w
    → Bounded (parse_risk_weights strtol json w)
unfolding parse_risk_weights
parse_risk_weights-Bounded strtol json w b = record {
  watched = keep "watched_process" w.watched_process b.watched;
  sensitive = keep "sensitive_file" w.sensitive_file b.sensitive;
  ip = keep "blocked_ip" w.blocked_ip b.ip;
  domain = keep "blocked_domain" w.blocked_domain b.domain;
  network = keep "network_after_file" w.network_after_file b.network;
  destinations = keep "high_unique_destinations" w.high_unique_destinations b.destinations;
  volume = keep "high_event_volume" w.high_event_volume b.volume;
  destination_threshold =
      keep "high_unique_destination_threshold" w.high_unique_destination_threshold
        b.destination_threshold;
  volume_threshold =
      keep "high_event_volume_threshold" w.high_event_volume_threshold b.volume_threshold;
}
  where
    keep : (key : String) (v : ℤ) → IsWeight v → IsWeight (weight strtol json (codes key) v)
    keep key v h = weight-IsWeight strtol json (codes key) v h

risk_weights_set_defaults-Bounded : Bounded risk_weights_set_defaults
unfolding risk_weights_set_defaults
risk_weights_set_defaults-Bounded = record {
  watched = omega arith;
  sensitive = omega arith;
  ip = omega arith;
  domain = omega arith;
  network = omega arith;
  destinations = omega arith;
  volume = omega arith;
  destination_threshold = omega arith;
  volume_threshold = omega arith;
}

-- Whatever the text of the policy holds, each weight and threshold that is loaded from it is between
-- -1000000 and 1000000.
pub policy_load-Bounded :
    (strtol : Str → Option ℤ) (json : Str) → Bounded (policy_load strtol json policy_init).weights
unfolding policy_load policy_init
policy_load-Bounded strtol json =
    parse_risk_weights-Bounded strtol json risk_weights_set_defaults
      risk_weights_set_defaults-Bounded
