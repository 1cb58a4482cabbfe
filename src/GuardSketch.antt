-- ===== src/GuardSketch.antt =====
-- src/agfast_parts/guardsketch.c: for each of at most 128 processes its exact signal counters and a
-- small Count-Min Sketch, and the risk scores that follow from either. An `int` is a ℤ; a slot is
-- pointed to by its index.
pub mod Cells
pub mod Counted
pub mod Slots
pub mod Accounting
pub mod Risk
mod Tests
use agent_guard_fast_path.Common.{
  ℕ, zero, suc, ◌+◌, ◌-◌, ◌*◌, ◌/◌, ◌%◌, ◌^◌, Bool, true, false, not, ◌&&◌, ◌||◌, Option, none,
  some, List, [], ◌∷◌, ltb, leb, ◌==◌, if◌then◌else◌, get_or, set, length, replicate, bit_and,
  bit_or, bit_xor, u8, u32, u64, u32_max, ◌>>>◌, ℤ, pos, negsuc, int_eq, int_lt, to_u32,
}

abbrev pub gs_max_pids : ℕ
gs_max_pids = 128

abbrev pub gs_bloom_bits : ℕ
gs_bloom_bits = 2048

abbrev pub gs_bloom_hashes : ℕ
gs_bloom_hashes = 4

abbrev pub gs_cms_depth : ℕ
gs_cms_depth = 3

abbrev pub gs_cms_width : ℕ
gs_cms_width = 256

abbrev pub gs_default_window : ℕ
gs_default_window = 64

-- `guard_sketch_signal_t`, and its numbers
pub data Signal : Type 0 where
  event : Signal
  sensitive_file : Signal
  blocked_destination : Signal
  network_after_file : Signal

abbrev pub signal_code : Signal → ℕ
signal_code event = 0
signal_code sensitive_file = 1
signal_code blocked_destination = 2
signal_code network_after_file = 3

-- `guard_sketch_slot_t`
pub record Slot : Type 0 where
  pub pid : ℤ
  pub used : Bool
  pub exact_events : ℕ
  pub exact_sensitive : ℕ
  pub exact_blocked : ℕ
  pub exact_network_after_file : ℕ
  pub cms : List (List ℕ)

-- `guard_sketch_t`
pub record Sketch : Type 0 where
  pub slots : List Slot
  pub pid_bloom : List ℕ
  pub window_limit : ℕ
  pub window_events : ℕ
  pub dropped_events : ℕ

unfoldable pub hash64 : ℕ → ℕ → ℕ
hash64 value seed =
    let x0 = u64 (value + seed + 0x9e3779b97f4a7c15) in
    let x1 = u64 (bit_xor x0 (x0 >>> 30) * 0xbf58476d1ce4e5b9) in
    let x2 = u64 (bit_xor x1 (x1 >>> 27) * 0x94d049bb133111eb) in bit_xor x2 (x2 >>> 31)

-- The rounds from `i` on, with `left` of them to go.
unfoldable pub bloom_set_rounds : ℕ → ℕ → ℕ → List ℕ → List ℕ
bloom_set_rounds zero i value bits = bits
bloom_set_rounds (suc left) i value bits =
    let p = hash64 value i % gs_bloom_bits in
    bloom_set_rounds left (i + 1) value
      (set bits (p / 8) (u8 (bit_or (get_or bits (p / 8) 0) (u8 (2 ^ (p % 8))))))

unfoldable pub bloom_set : List ℕ → ℕ → List ℕ
unfolding bloom_set_rounds
bloom_set bits value = bloom_set_rounds gs_bloom_hashes 0 value bits

unfoldable pub bloom_maybe_rounds : ℕ → ℕ → ℕ → List ℕ → Bool
bloom_maybe_rounds zero i value bits = true
bloom_maybe_rounds (suc left) i value bits =
    let p = hash64 value i % gs_bloom_bits in
    let rest = bloom_maybe_rounds left (i + 1) value bits in
    if bit_and (get_or bits (p / 8) 0) (u8 (2 ^ (p % 8))) == 0 then false else rest

unfoldable pub bloom_maybe_contains : List ℕ → ℕ → Bool
unfolding bloom_maybe_rounds
bloom_maybe_contains bits value = bloom_maybe_rounds gs_bloom_hashes 0 value bits

unfoldable pub signal_key : ℤ → Signal → ℕ
signal_key pid signal = bit_xor (u64 (to_u32 pid * 2 ^ 16)) (signal_code signal)

-- The column of a key in a row.
unfoldable pub gs_col : ℕ → ℕ → ℕ
gs_col key row = hash64 key (row + 17) % gs_cms_width

abbrev pub gs_cell : List (List ℕ) → ℕ → ℕ → ℕ
gs_cell cms row col = get_or (get_or cms row []) col 0

-- A counter that stays at `UINT32_MAX`.
abbrev pub saturating_inc : ℕ → ℕ
saturating_inc c = if c == u32_max then c else c + 1

unfoldable pub gs_add_rows : ℕ → ℕ → ℕ → List (List ℕ) → List (List ℕ)
gs_add_rows zero row key cms = cms
gs_add_rows (suc left) row key cms =
    let col = gs_col key row in
    gs_add_rows left (row + 1) key
      (set cms row (set (get_or cms row []) col (saturating_inc (gs_cell cms row col))))

unfoldable pub gs_cms_add : Slot → Signal → Slot
unfolding gs_add_rows
gs_cms_add slot signal = record slot {
  cms = gs_add_rows gs_cms_depth 0 (signal_key slot.pid signal) slot.cms;
}

unfoldable pub gs_best_rows : ℕ → ℕ → ℕ → List (List ℕ) → ℕ → ℕ
gs_best_rows zero row key cms best = best
gs_best_rows (suc left) row key cms best =
    let c = gs_cell cms row (gs_col key row) in
    gs_best_rows left (row + 1) key cms (if ltb c best then c else best)

unfoldable pub gs_cms_estimate : Slot → Signal → ℕ
unfolding gs_best_rows
gs_cms_estimate slot signal =
    let best = gs_best_rows gs_cms_depth 0 (signal_key slot.pid signal) slot.cms u32_max in
    if best == u32_max then 0 else best

-- What the loop over the slots finds: the slot of the process, else the first free one.
pub data Place : Type 0 where
  found : ℕ → Place
  free : ℕ → Place
  full : Place

unfoldable pub scan_slots : List Slot → ℤ → ℕ → Place
scan_slots [] pid i = full
scan_slots (s ∷ slots) pid i =
    let rest = scan_slots slots pid (i + 1) in
    if s.used && int_eq s.pid pid
    then found i
    else if s.used
    then rest
    else elim rest [ found j ↦ found j | _ ↦ free i ]

-- The slot after `memset`, with its process.
abbrev pub new_slot : ℤ → Bool → Slot
new_slot pid used = record {
  pid = pid;
  used = used;
  exact_events = 0;
  exact_sensitive = 0;
  exact_blocked = 0;
  exact_network_after_file = 0;
  cms = replicate gs_cms_depth (replicate gs_cms_width 0);
}

unfoldable pub find_slot : Sketch → ℤ → Option ℕ × Sketch
unfolding scan_slots bloom_set
find_slot sk pid = elim (scan_slots sk.slots pid 0) [
  | found i ↦ (some i, sk)
  | free i ↦ (
    some i,
    record sk {
      slots = set sk.slots i (new_slot pid true);
      pid_bloom = bloom_set sk.pid_bloom (to_u32 pid);
    },
  )
  | full ↦ (none, record sk { dropped_events = u64 (sk.dropped_events + 1) })
]

unfoldable pub gs_init : ℕ → Sketch
gs_init window_limit = record {
  slots = replicate gs_max_pids (new_slot (pos 0) false);
  pid_bloom = replicate (gs_bloom_bits / 8) 0;
  window_limit = if window_limit == 0 then gs_default_window else window_limit;
  window_events = 0;
  dropped_events = 0;
}

-- The exact counter of a signal that is not a mere event.
unfoldable pub count_exact : Slot → Signal → Slot
count_exact s signal = record s {
  exact_sensitive =
      if signal_code signal == 1 then u64 (s.exact_sensitive + 1) else s.exact_sensitive;
  exact_blocked = if signal_code signal == 2 then u64 (s.exact_blocked + 1) else s.exact_blocked;
  exact_network_after_file =
      if signal_code signal == 3
      then u64 (s.exact_network_after_file + 1)
      else s.exact_network_after_file;
}

-- The slot of a recorded signal: the event is added to the counters, then the signal itself.
unfoldable pub record_slot : Slot → Signal → Slot
unfolding count_exact gs_cms_add
record_slot s signal =
    let counted = gs_cms_add (record s { exact_events = u64 (s.exact_events + 1) }) event in
    gs_cms_add (count_exact counted signal) signal

unfoldable pub gs_record : Sketch → ℤ → Signal → Bool × Sketch
unfolding find_slot record_slot
gs_record sk pid signal =
    if leb sk.window_limit sk.window_events
    then (false, record sk { dropped_events = u64 (sk.dropped_events + 1) })
    else let at = find_slot sk pid in
      elim (at.0) [
        | none ↦ (false, at.1)
        | some i ↦ (
          true,
          record (at.1) {
            window_events = u64 (at.1.window_events + 1);
            slots =
                set at.1.slots i
                  (record_slot (get_or at.1.slots i (new_slot (pos 0) false)) signal);
          },
        )
      ]

-- The two scores are one formula over the exact and over the estimated counts.
abbrev pub score : ℕ → ℕ → ℕ → ℕ → ℕ
score events sensitive blocked network =
    let sum = u64 (u64 (u64 (sensitive * 25) + u64 (blocked * 35)) + u64 (network * 30)) in
    let total = if leb 8 events then u64 (sum + 10) else sum in if ltb 100 total then 100 else total

unfoldable pub exact_risk : Slot → ℕ
exact_risk s = score s.exact_events s.exact_sensitive s.exact_blocked s.exact_network_after_file

unfoldable pub approx_risk : Slot → ℕ
unfolding gs_cms_estimate
approx_risk s =
    score (gs_cms_estimate s event) (gs_cms_estimate s sensitive_file)
      (gs_cms_estimate s blocked_destination) (gs_cms_estimate s network_after_file)

unfoldable pub find_const_slot : List Slot → ℤ → Option Slot
find_const_slot [] pid = none
find_const_slot (s ∷ slots) pid =
    let rest = find_const_slot slots pid in if s.used && int_eq s.pid pid then some s else rest

-- `guardSketchTopOverlap`: the entries of `a` that stand in `b`.
unfoldable pub pid_in : List ℤ → ℤ → Bool
pid_in [] x = false
pid_in (y ∷ b) x = int_eq x y || pid_in b x

unfoldable pub top_overlap : List ℤ → List ℤ → ℕ
unfolding pid_in
top_overlap [] b = 0
top_overlap (x ∷ a) b = (if pid_in b x then 1 else 0) + top_overlap a b
