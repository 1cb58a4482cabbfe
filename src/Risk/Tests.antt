-- ===== src/Risk/Tests.antt =====
-- The theorem on the risk score, and the score itself, at a watched process that has read a sensitive
-- file and then contacted a blocked address.
use agent_guard_fast_path.Common.{◌≡◌, refl, true, pos, int_add}
use agent_guard_fast_path.Text.{codes, copy_trunc}
use agent_guard_fast_path.Policy.{risk_weights_set_defaults}
use agent_guard_fast_path.Graph.{Node, zero_node}
use agent_guard_fast_path.Risk.{
  compute_risk_for_node, add_reasons, add_reason, risk_level_from_score,
}

abbrev suspect : Node
suspect = record zero_node {
  watched = true;
  touched_sensitive = true;
  connected = true;
  connected_blocked_ip = true;
}

suspect_score :
    let scored = compute_risk_for_node suspect risk_weights_set_defaults in
    (scored.risk_score ≡ pos 100) × (scored.risk_level ≡ codes "critical")
unfolding compute_risk_for_node add_reasons add_reason risk_weights_set_defaults
    risk_level_from_score copy_trunc int_add
suspect_score = (refl, refl)
