-- ===== src/Risk/Explained.antt =====
-- The reasons of a node explain its score.
use agent_guard_fast_path.Common.{
  ◌≡◌, ◌⊎◌, Bool, true, false, ◌&&◌, List, [], ◌∷◌, ◌++◌, Str, str_eq, leb, if◌then◌else◌, ℤ, pos,
  int_add, int_lt, to_u64, length,
}
use agent_guard_fast_path.Text.{codes}
use agent_guard_fast_path.Policy.{RiskWeights}
use agent_guard_fast_path.Graph.{Node}

-- The weight that stands behind a reason.
unfoldable pub weight_of : RiskWeights → Str → ℤ
weight_of w reason =
    if str_eq reason (codes "watched_process")
    then w.watched_process
    else if str_eq reason (codes "sensitive_file_access")
    then w.sensitive_file
    else if str_eq reason (codes "blocked_ip_contact")
    then w.blocked_ip
    else if str_eq reason (codes "blocked_domain_contact")
    then w.blocked_domain
    else if str_eq reason (codes "network_after_file_access")
    then w.network_after_file
    else if str_eq reason (codes "high_unique_destinations")
    then w.high_unique_destinations
    else if str_eq reason (codes "high_event_volume")
    then w.high_event_volume
    else pos 0

-- The sum of the weights, from the left.
unfoldable pub sum_from : RiskWeights → ℤ → List Str → ℤ
sum_from w acc [] = acc
sum_from w acc (r ∷ reasons) = sum_from w (int_add acc (weight_of w r)) reasons

abbrev IsExplained : RiskWeights → Node → Type 0
IsExplained w n = n.risk_score ≡ sum_from w (pos 0) n.risk_reasons.items

-- A reason is listed where its condition holds.
abbrev pub only : Bool → Str → List Str
only holds reason = if holds then reason ∷ [] else []

-- The seven conditions, in order.
abbrev pub reasons_of : Node → RiskWeights → List Str
reasons_of n w =
    only n.watched (codes "watched_process")
    ++ only n.touched_sensitive (codes "sensitive_file_access")
    ++ only n.connected_blocked_ip (codes "blocked_ip_contact")
    ++ only n.connected_blocked_domain (codes "blocked_domain_contact")
    ++ only (n.touched_sensitive && n.connected) (codes "network_after_file_access")
    ++ only (leb (to_u64 w.high_unique_destination_threshold) (length n.destinations.items))
        (codes "high_unique_destinations")
    ++ only (leb (to_u64 w.high_event_volume_threshold) n.events_seen) (codes "high_event_volume")

-- The level of a score.
abbrev pub HasLevel : ℤ → Str → Type 0
HasLevel score level =
    ((level ≡ codes "critical") × (int_lt score (pos 80) ≡ false))
    ⊎ ((level ≡ codes "high") × (int_lt score (pos 80) ≡ true) × (int_lt score (pos 60) ≡ false))
    ⊎ ((level ≡ codes "medium") × (int_lt score (pos 60) ≡ true) × (int_lt score (pos 30) ≡ false))
    ⊎ ((level ≡ codes "low") × (int_lt score (pos 30) ≡ true) × (int_lt (pos 0) score ≡ true))
    ⊎ ((level ≡ codes "none") × (int_lt (pos 0) score ≡ false))

-- The score is the sum, or 100 where the sum is above 100.
abbrev pub CutAt100 : ℤ → ℤ → Type 0
CutAt100 sum score =
    ((int_lt (pos 100) sum ≡ true) × (score ≡ pos 100))
    ⊎ ((int_lt (pos 100) sum ≡ false) × (score ≡ sum))
