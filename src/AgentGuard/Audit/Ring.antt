-- ===== src/AgentGuard/Audit/Ring.antt =====
-- The ring of the audit log as the sequence of its entries.
use agent_guard_fast_path.Common.{
  ℕ, zero, suc, ◌+◌, ◌-◌, ◌%◌, ◌≤◌, ◌<◌, ◌≡◌, inl, inr, refl, sym, ap, ◌∙◌, List, [], ◌∷◌, ◌++◌,
  ltb, arith, if◌then◌else◌, Bool-cases, length, set, get_or, length-set, get_or-set_ne,
  get_or-set_self,
}
use agent_guard_fast_path.AgentGuard.Context.{max_log_entries}
use agent_guard_fast_path.AgentGuard.Audit.{Entry, AuditLog, cleared}
use agent_guard_fast_path.AgentGuard.Audit.Requests.{push_entry}

-- `n` entries of the ring from index `i`, the oldest first.
unfoldable pub walk : List Entry → ℕ → ℕ → List Entry
walk es i zero = []
walk es i (suc n) = get_or es i cleared ∷ walk es ((i + 1) % max_log_entries) n

-- The entries that the log holds.
abbrev pub contents : AuditLog → List Entry
contents log = walk log.entries log.tail log.entry_count

-- The sequence without its oldest entry when it is full.
abbrev pub behind : List Entry → List Entry
behind [] = []
behind (x ∷ xs) = xs

abbrev pub make_room : List Entry → List Entry
make_room es = if ltb (length es) max_log_entries then es else behind es

-- Room for every entry, the head one behind the newest, and a tail that moves only when the ring is
-- full.
pub record IsRing (log : AuditLog) : Type 0 where
  pub room : length log.entries ≡ max_log_entries
  pub count_le : log.entry_count ≤ max_log_entries
  pub tail_lt : log.tail < max_log_entries
  pub head_at : log.head ≡ (log.tail + log.entry_count) % max_log_entries

length-walk : (es : List Entry) (i n : ℕ) → length (walk es i n) ≡ n
unfolding walk
length-walk es i zero = refl
length-walk es i (suc n) = ap suc (length-walk es ((i + 1) % max_log_entries) n)

-- One entry more at the end.
walk_snoc :
    (es : List Entry) (i n : ℕ)
    → i < max_log_entries
    → walk es i (suc n) ≡ walk es i n ++ get_or es ((i + n) % max_log_entries) cleared ∷ []
unfolding walk
walk_snoc es i zero h = ap (λ (k : ℕ). get_or es k cleared ∷ []) (omega arith)
walk_snoc es i (suc n) h =
    ap (λ (t : List Entry). get_or es i cleared ∷ t)
      (walk_snoc es ((i + 1) % max_log_entries) n (omega arith)
        ∙ ap (λ (k : ℕ). walk es ((i + 1) % max_log_entries) n ++ get_or es k cleared ∷ [])
            (omega arith))

-- A write behind the end of the walk.
walk-set :
    (es : List Entry) (i n k : ℕ) (e : Entry)
    → i < max_log_entries
    → n ≤ max_log_entries - 1
    → k ≡ (i + n) % max_log_entries
    → walk (set es k e) i n ≡ walk es i n
unfolding walk
walk-set es i zero k e h below at = refl
walk-set es i (suc n) k e h below at = rw (get_or-set_ne es k i e cleared (omega (arith, at))) (
    ap (λ (t : List Entry). get_or es i cleared ∷ t)
      (walk-set es ((i + 1) % max_log_entries) n k e (omega arith) (omega arith)
        (omega (arith, at))))

pub push_entry-IsRing : (e : Entry) (log : AuditLog) → IsRing log → IsRing (push_entry e log)
unfolding push_entry
push_entry-IsRing e log h = elim (Bool-cases (ltb log.entry_count max_log_entries)) [
  | inl lt ↦ rw lt (record {
    room = length-set log.entries log.head e ∙ h.room;
    count_le = ground (arith, lt);
    tail_lt = h.tail_lt;
    head_at = omega (arith, h.head_at);
  })
  | inr ge ↦
      let full : log.entry_count ≡ max_log_entries = ground (arith, ge, h.count_le) in
      rw ge (record {
        room = length-set log.entries log.head e ∙ h.room;
        count_le = h.count_le;
        tail_lt = omega arith;
        head_at = omega (arith, full, h.head_at);
      })
]

-- The write of an entry into a ring that is not full, and into one that is.
push_free :
    (e : Entry) (log : AuditLog)
    → IsRing log
    → log.entry_count < max_log_entries
    → walk (set log.entries log.head e) log.tail (log.entry_count + 1) ≡ contents log ++ e ∷ []
push_free e log h free =
    ap (walk (set log.entries log.head e) log.tail) (omega arith)
    ∙ walk_snoc (set log.entries log.head e) log.tail log.entry_count h.tail_lt
    ∙ rw
        (
          walk-set log.entries log.tail log.entry_count log.head e h.tail_lt (omega arith)
              h.head_at,
          sym h.head_at,
          get_or-set_self log.entries log.head e cleared (omega (arith, h.room, h.head_at)),
        )
        refl

push_full :
    (e : Entry) (es : List Entry) (i n : ℕ)
    → i < max_log_entries
    → length es ≡ max_log_entries
    → n ≡ max_log_entries - 1
    → walk (set es i e) ((i + 1) % max_log_entries) (suc n) ≡ behind (walk es i (suc n)) ++ e ∷ []
push_full e es i n h room all =
    walk_snoc (set es i e) ((i + 1) % max_log_entries) n (omega arith)
    ∙ rw
        (
          walk-set es ((i + 1) % max_log_entries) n i e (omega arith) (omega arith)
              (omega (arith, all)),
          the_slot,
          get_or-set_self es i e cleared (omega (arith, room)),
        )
        (unfold walk in refl)
  where
    the_slot : ((i + 1) % max_log_entries + n) % max_log_entries ≡ i
    the_slot = omega (arith, all)

pub push_entry-contents :
    (e : Entry) (log : AuditLog)
    → IsRing log
    → contents (push_entry e log) ≡ make_room (contents log) ++ e ∷ []
unfolding push_entry
push_entry-contents e log h = elim (Bool-cases (ltb log.entry_count max_log_entries)) [
  | inl lt ↦
      rw (length-walk log.entries log.tail log.entry_count, lt)
        (push_free e log h (ground (arith, lt)))
  | inr ge ↦
      let full : log.entry_count ≡ max_log_entries = ground (arith, ge, h.count_le) in
      let some_left : log.entry_count ≡ suc (log.entry_count - 1) = omega (arith, full) in
      let here : log.head ≡ log.tail = omega (arith, full, h.head_at, h.tail_lt) in
      rw (length-walk log.entries log.tail log.entry_count, ge)
        (ap
            (λ (k : ℕ).
              walk (set log.entries k e) ((log.tail + 1) % max_log_entries) log.entry_count)
            here
          ∙ ap (walk (set log.entries log.tail e) ((log.tail + 1) % max_log_entries)) some_left
          ∙ push_full e log.entries log.tail (log.entry_count - 1) h.tail_lt h.room
              (omega (arith, full))
          ∙ ap (λ (n : ℕ). behind (walk log.entries log.tail n) ++ e ∷ []) (sym some_left))
]
