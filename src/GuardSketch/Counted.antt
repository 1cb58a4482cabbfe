-- ===== src/GuardSketch/Counted.antt =====
-- What the exact counters of a slot and its sketch keep while signals are recorded.
use agent_guard_fast_path.Common.{ℕ, ◌+◌, ◌-◌, ◌*◌, ◌^◌, ◌≤◌, ◌<◌, ◌≡◌, List, arith, u64}
use agent_guard_fast_path.GuardSketch.{
  Signal, event, sensitive_file, blocked_destination, network_after_file, Slot, signal_key, gs_col,
  gs_cell, gs_add_rows, gs_cms_add, count_exact, record_slot, gs_cms_depth,
}
use agent_guard_fast_path.GuardSketch.Cells.{Shaped, Adds, gs_add_rows-Adds}

-- The exact counter of a signal.
abbrev pub exact_of : Slot → Signal → ℕ
exact_of s event = s.exact_events
exact_of s sensitive_file = s.exact_sensitive
exact_of s blocked_destination = s.exact_blocked
exact_of s network_after_file = s.exact_network_after_file

-- What every slot keeps: no counter of the sketch is below the exact one, and none is above twice the
-- events, since an event adds to a cell at most twice.
pub record IsCounted (s : Slot) : Type 0 where
  pub shaped : Shaped s.cms
  pub low :
      (sig : Signal) (r : ℕ)
      → r < gs_cms_depth
      → exact_of s sig ≤ gs_cell s.cms r (gs_col (signal_key s.pid sig) r)
  pub high : (r c : ℕ) → gs_cell s.cms r c ≤ 2 * s.exact_events
  pub part : (sig : Signal) → exact_of s sig ≤ s.exact_events

module _ (s : Slot) (signal : Signal) (h : IsCounted s) (few : s.exact_events < 2 ^ 31 - 1) where
  abbrev first : List (List ℕ)
  first = gs_add_rows gs_cms_depth 0 (signal_key s.pid event) s.cms

  first-Adds : Adds s.cms gs_cms_depth 0 (signal_key s.pid event) first
  first-Adds = gs_add_rows-Adds gs_cms_depth 0 (signal_key s.pid event) s.cms h.shaped (omega arith)

  abbrev second : List (List ℕ)
  second = gs_add_rows gs_cms_depth 0 (signal_key s.pid signal) first

  second-Adds : Adds first gs_cms_depth 0 (signal_key s.pid signal) second
  second-Adds =
      gs_add_rows-Adds gs_cms_depth 0 (signal_key s.pid signal) first first-Adds.shaped
        (omega arith)

  rise : (r c : ℕ) → gs_cell s.cms r c ≤ gs_cell second r c
  rise r c = omega (arith, first-Adds.grows r c, second-Adds.grows r c)

  cap : (r c : ℕ) → gs_cell second r c ≤ 2 * u64 (s.exact_events + 1)
  cap r c = omega (arith, few, first-Adds.by_one r c, second-Adds.by_one r c, h.high r c)

  kept :
      (sig : Signal) (r : ℕ)
      → r < gs_cms_depth
      → exact_of s sig ≤ gs_cell second r (gs_col (signal_key s.pid sig) r)
  kept sig r lt = omega (arith, h.low sig r lt, rise r (gs_col (signal_key s.pid sig) r))

  event_up :
      (r : ℕ)
      → r < gs_cms_depth
      → u64 (s.exact_events + 1) ≤ gs_cell second r (gs_col (signal_key s.pid event) r)
  event_up r lt =
      let c = gs_col (signal_key s.pid event) r in
      omega (
        arith,
        few,
        h.high r c,
        h.low event r lt,
        first-Adds.counted r (omega arith) (omega arith) (omega (arith, few, h.high r c)),
        second-Adds.grows r c,
      )

  own_up :
      (r : ℕ)
      → r < gs_cms_depth
      → u64 (exact_of s signal + 1) ≤ gs_cell second r (gs_col (signal_key s.pid signal) r)
  own_up r lt =
      let c = gs_col (signal_key s.pid signal) r in
      omega (
        arith,
        few,
        h.low signal r lt,
        first-Adds.grows r c,
        second-Adds.counted r (omega arith) (omega arith)
            (omega (arith, few, h.high r c, first-Adds.by_one r c)),
      )

  events_up : u64 (s.exact_events + 1) ≡ s.exact_events + 1
  events_up = omega (arith, few)

  part_up : (sig : Signal) → exact_of s sig ≤ u64 (s.exact_events + 1)
  part_up sig = omega (arith, few, h.part sig)

  own_part : u64 (exact_of s signal + 1) ≤ u64 (s.exact_events + 1)
  own_part = omega (arith, few, h.part signal)

low-record :
    (s : Slot) (signal : Signal)
    → IsCounted s
    → s.exact_events < 2 ^ 31 - 1
    → (sig : Signal) (r : ℕ) → r < gs_cms_depth
    → exact_of (record_slot s signal) sig
      ≤ gs_cell (record_slot s signal).cms r (gs_col (signal_key s.pid sig) r)
unfolding record_slot gs_cms_add count_exact
low-record s signal h few event r lt = event_up s signal h few r lt
low-record s event h few sensitive_file r lt = kept s event h few sensitive_file r lt
low-record s sensitive_file h few sensitive_file r lt = own_up s sensitive_file h few r lt
low-record s blocked_destination h few sensitive_file r lt =
    kept s blocked_destination h few sensitive_file r lt
low-record s network_after_file h few sensitive_file r lt =
    kept s network_after_file h few sensitive_file r lt
low-record s event h few blocked_destination r lt = kept s event h few blocked_destination r lt
low-record s sensitive_file h few blocked_destination r lt =
    kept s sensitive_file h few blocked_destination r lt
low-record s blocked_destination h few blocked_destination r lt =
    own_up s blocked_destination h few r lt
low-record s network_after_file h few blocked_destination r lt =
    kept s network_after_file h few blocked_destination r lt
low-record s event h few network_after_file r lt = kept s event h few network_after_file r lt
low-record s sensitive_file h few network_after_file r lt =
    kept s sensitive_file h few network_after_file r lt
low-record s blocked_destination h few network_after_file r lt =
    kept s blocked_destination h few network_after_file r lt
low-record s network_after_file h few network_after_file r lt =
    own_up s network_after_file h few r lt

part-record :
    (s : Slot) (signal : Signal)
    → IsCounted s
    → s.exact_events < 2 ^ 31 - 1
    → (sig : Signal) → exact_of (record_slot s signal) sig ≤ u64 (s.exact_events + 1)
unfolding record_slot gs_cms_add count_exact
part-record s signal h few event = omega arith
part-record s event h few sensitive_file = part_up s event h few sensitive_file
part-record s sensitive_file h few sensitive_file = own_part s sensitive_file h few
part-record s blocked_destination h few sensitive_file =
    part_up s blocked_destination h few sensitive_file
part-record s network_after_file h few sensitive_file =
    part_up s network_after_file h few sensitive_file
part-record s event h few blocked_destination = part_up s event h few blocked_destination
part-record s sensitive_file h few blocked_destination =
    part_up s sensitive_file h few blocked_destination
part-record s blocked_destination h few blocked_destination = own_part s blocked_destination h few
part-record s network_after_file h few blocked_destination =
    part_up s network_after_file h few blocked_destination
part-record s event h few network_after_file = part_up s event h few network_after_file
part-record s sensitive_file h few network_after_file =
    part_up s sensitive_file h few network_after_file
part-record s blocked_destination h few network_after_file =
    part_up s blocked_destination h few network_after_file
part-record s network_after_file h few network_after_file = own_part s network_after_file h few

-- A recorded signal keeps the slot counted and adds one to its events.
pub record_slot-IsCounted :
    (s : Slot) (signal : Signal)
    → IsCounted s
    → s.exact_events < 2 ^ 31 - 1
    → IsCounted (record_slot s signal) × ((record_slot s signal).exact_events ≡ s.exact_events + 1)
unfolding record_slot gs_cms_add count_exact
record_slot-IsCounted s signal h few = (
  record {
    shaped = (second-Adds s signal h few).shaped;
    low = low-record s signal h few;
    high = cap s signal h few;
    part = part-record s signal h few;
  },
  events_up s signal h few,
)
