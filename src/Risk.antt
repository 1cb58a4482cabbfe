-- ===== src/Risk.antt =====
-- The risk score of src/agfast_parts/risk_reports.c. The score is an `int` that stays far from its
-- bounds: a weight of a loaded policy is at most 1000000 in size, and seven of them are added.
pub mod Explained
mod Tests
use agent_guard_fast_path.Common.{
  ℕ, Bool, true, false, not, ◌&&◌, ◌||◌, List, [], ◌∷◌, Str, str_eq, leb, map, if◌then◌else◌,
  is_empty, ℤ, pos, negsuc, int_add, int_lt, int_eq, to_u64,
}
use agent_guard_fast_path.Text.{codes, copy_trunc}
use agent_guard_fast_path.StringList.{StringList, count, list_add, list_free}
use agent_guard_fast_path.Policy.{RiskWeights}
use agent_guard_fast_path.Graph.{Node, Graph}

unfoldable pub risk_level_from_score : ℤ → Str
risk_level_from_score score =
    if not (int_lt score (pos 80))
    then codes "critical"
    else if not (int_lt score (pos 60))
    then codes "high"
    else if not (int_lt score (pos 30))
    then codes "medium"
    else if int_lt (pos 0) score
    then codes "low"
    else codes "none"

-- One of the seven conditions: its weight is added and its reason listed.
unfoldable pub add_reason : Bool → ℤ → Str → Node → Node
add_reason holds weight reason n =
    if holds
    then record n {
      risk_score = int_add n.risk_score weight;
      risk_reasons = list_add n.risk_reasons reason;
    }
    else n

unfoldable pub add_reasons : Node → RiskWeights → Node
unfolding add_reason
add_reasons n w =
    let n0 = record n { risk_reasons = list_free n.risk_reasons; risk_score = pos 0 } in
    let n1 = add_reason n.watched w.watched_process (codes "watched_process") n0 in
    let n2 = add_reason n.touched_sensitive w.sensitive_file (codes "sensitive_file_access") n1 in
    let n3 = add_reason n.connected_blocked_ip w.blocked_ip (codes "blocked_ip_contact") n2 in
    let n4 =
      add_reason n.connected_blocked_domain w.blocked_domain (codes "blocked_domain_contact") n3 in
    let n5 =
      add_reason (n.touched_sensitive && n.connected) w.network_after_file
        (codes "network_after_file_access") n4 in
    let n6 =
      add_reason (leb (to_u64 w.high_unique_destination_threshold) (count n.destinations))
        w.high_unique_destinations (codes "high_unique_destinations") n5 in
    add_reason (leb (to_u64 w.high_event_volume_threshold) n.events_seen) w.high_event_volume
      (codes "high_event_volume") n6

abbrev pub cap_score : ℤ → ℤ
cap_score score = if int_lt (pos 100) score then pos 100 else score

unfoldable pub compute_risk_for_node : Node → RiskWeights → Node
unfolding add_reasons
compute_risk_for_node n w =
    let scored = add_reasons n w in
    let score = cap_score scored.risk_score in
    record scored {
      risk_score = score;
      risk_level = copy_trunc scored.risk_level 16 (risk_level_from_score score);
    }

unfoldable pub compute_risk_all : Graph → RiskWeights → Graph
compute_risk_all g w = record g { items = map (λ n. compute_risk_for_node n w) g.items }

-- A negative process number filters nothing, nor does an empty name.
unfoldable pub graph_node_matches : Node → ℤ → Str → Bool
graph_node_matches n filter_pid filter_process =
    if not (int_lt filter_pid (pos 0)) && not (int_eq n.pid filter_pid)
    then false
    else if not (is_empty filter_process) && not (str_eq n.process filter_process)
    then false
    else true
