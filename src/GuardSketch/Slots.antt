-- ===== src/GuardSketch/Slots.antt =====
-- The slots of a sketch, and the search for one.
use agent_guard_fast_path.Common.{
  ℕ, zero, suc, ◌+◌, ◌≤◌, ◌<◌, ◌≡◌, refl, Bool, true, false, Option, none, some, List, [], ◌∷◌,
  arith, inl, inr, ◌⊎◌, if◌then◌else◌, get_or, set, u64, replicate, length-replicate,
  get_or-replicate, get_or-replicate_in, ℤ, pos,
}
use agent_guard_fast_path.GuardSketch.{
  Signal, event, sensitive_file, blocked_destination, network_after_file, Slot, Sketch, gs_cell,
  gs_col, signal_key, gs_cms_depth, gs_cms_width, new_slot, find_slot, scan_slots, Place, found,
  free, full,
}
use agent_guard_fast_path.GuardSketch.Counted.{exact_of, IsCounted}

abbrev pub slot_at : List Slot → ℕ → Slot
slot_at slots i = get_or slots i (new_slot (pos 0) false)

-- Every slot is counted, with at most `k` events.
abbrev pub AllCounted : List Slot → ℕ → Type 0
AllCounted slots k = (i : ℕ) → IsCounted (slot_at slots i) × ((slot_at slots i).exact_events ≤ k)

slot_at-set :
    (slots : List Slot) (i j : ℕ) (s : Slot)
    → (slot_at (set slots i s) j ≡ s) ⊎ (slot_at (set slots i s) j ≡ slot_at slots j)
slot_at-set [] i j s = inr refl
slot_at-set (x ∷ slots) zero zero s = inl refl
slot_at-set (x ∷ slots) zero (suc j) s = inr refl
slot_at-set (x ∷ slots) (suc i) zero s = inr refl
slot_at-set (x ∷ slots) (suc i) (suc j) s = slot_at-set slots i j s

pub AllCounted-set :
    (slots : List Slot) (k i : ℕ) (s : Slot)
    → AllCounted slots k
    → IsCounted s
    → s.exact_events ≤ k
    → AllCounted (set slots i s) k
AllCounted-set slots k i s h c le j = elim (slot_at-set slots i j s) [
  | inl e ↦ rw e (c, le)
  | inr e ↦ rw e (h j)
]

zero_cells : (r c : ℕ) → gs_cell (replicate gs_cms_depth (replicate gs_cms_width 0)) r c ≡ 0
unfolding replicate
zero_cells zero c = get_or-replicate gs_cms_width c 0
zero_cells (suc zero) c = get_or-replicate gs_cms_width c 0
zero_cells (suc (suc zero)) c = get_or-replicate gs_cms_width c 0
zero_cells (suc (suc (suc r))) c = refl

pub new_slot-IsCounted : (pid : ℤ) (used : Bool) → IsCounted (new_slot pid used)
unfolding replicate
new_slot-IsCounted pid used = record {
  shaped = record {
    rows = refl;
    cols = λ r h.
        rw (get_or-replicate_in gs_cms_depth r (replicate {A = ℕ} gs_cms_width 0) [] h)
          (length-replicate {A = ℕ} gs_cms_width 0);
  };
  low = low_zero;
  high = λ r c. omega (arith, zero_cells r c);
  part = part_zero;
}
  where
    low_zero :
        (sig : Signal) (r : ℕ)
        → r < gs_cms_depth
        → exact_of (new_slot pid used) sig
          ≤ gs_cell (new_slot pid used).cms r (gs_col (signal_key pid sig) r)
    low_zero event r h = omega arith
    low_zero sensitive_file r h = omega arith
    low_zero blocked_destination r h = omega arith
    low_zero network_after_file r h = omega arith

    part_zero : (sig : Signal) → exact_of (new_slot pid used) sig ≤ 0
    part_zero event = omega arith
    part_zero sensitive_file = omega arith
    part_zero blocked_destination = omega arith
    part_zero network_after_file = omega arith

-- What the sketch keeps: the window is not overrun, every slot is counted, and no slot has more events
-- than the window.
pub record IsSound (sk : Sketch) : Type 0 where
  pub window : sk.window_events ≤ sk.window_limit
  pub counted : AllCounted sk.slots sk.window_events

-- Finding a slot keeps the counters and the window.
pub record Finds (sk after : Sketch) (dropped : Bool) : Type 0 where
  pub slots : AllCounted after.slots sk.window_events
  pub limit : after.window_limit ≡ sk.window_limit
  pub events : after.window_events ≡ sk.window_events
  pub drops :
      after.dropped_events ≡ (if dropped then u64 (sk.dropped_events + 1) else sk.dropped_events)

abbrev is_none {ℓ} : {A : Type ℓ} → Option A → Bool
is_none none = true
is_none (some a) = false

Place-cases : (p : Place) → ((i : ℕ) × (p ≡ found i)) ⊎ (((i : ℕ) × (p ≡ free i)) ⊎ (p ≡ full))
Place-cases (found i) = inl (i, refl)
Place-cases (free i) = inr (inl (i, refl))
Place-cases full = inr (inr refl)

pub find_slot-Finds :
    (sk : Sketch) (pid : ℤ)
    → IsSound sk
    → Finds sk (find_slot sk pid).1 (is_none (find_slot sk pid).0)
unfolding find_slot
find_slot-Finds sk pid h = elim (Place-cases (scan_slots sk.slots pid 0)) [
  | inl (i, e) ↦
      rw (find_slot, e) (record { slots = h.counted; limit = refl; events = refl; drops = refl })
  | inr (inl (i, e)) ↦
      rw (find_slot, e)
        (record {
          slots =
              AllCounted-set sk.slots sk.window_events i (new_slot pid true) h.counted
                (new_slot-IsCounted pid true) (omega arith);
          limit = refl;
          events = refl;
          drops = refl;
        })
  | inr (inr e) ↦
      rw (find_slot, e) (record { slots = h.counted; limit = refl; events = refl; drops = refl })
]
