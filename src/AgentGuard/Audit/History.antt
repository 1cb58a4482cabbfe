-- ===== src/AgentGuard/Audit/History.antt =====
-- The audit log against the sequence of all entries that were ever added.
use agent_guard_fast_path.Common.{
  ℕ, zero, suc, ◌+◌, ◌-◌, ◌≤◌, ◌≡◌, refl, sym, ap, subst, ◌∙◌, true, Option, none, some, List, [],
  ◌∷◌, ◌++◌, Str, ltb, arith, Bool-cases, inl, inr, length, length-replicate, drop, length-drop,
  drop-append, length-append, append_assoc, append_nil, ℤ, pos, negsuc, u64,
}
use agent_guard_fast_path.AgentGuard.Context.{AgContext, max_log_entries, max_path_len}
use agent_guard_fast_path.AgentGuard.Utils.{ag_strlcpy}
use agent_guard_fast_path.AgentGuard.Audit.{
  Entry, AuditLog, cleared, ag_audit_init, empty_log, ready, System, Trail, AuditType, Severity,
  new_entry,
}
use agent_guard_fast_path.AgentGuard.Audit.Requests.{push_entry, ag_audit_add, recorded}
use agent_guard_fast_path.AgentGuard.Audit.Ring.{
  walk, contents, behind, make_room, IsRing, push_entry-IsRing, push_entry-contents,
}

-- The newest `max_log_entries` of a history.
abbrev pub newest : List Entry → List Entry
newest es = drop (length es - max_log_entries) es

behind-drop : (n : ℕ) (es : List Entry) → behind (drop n es) ≡ drop (suc n) es
behind-drop zero [] = refl
behind-drop zero (x ∷ es) = refl
behind-drop (suc n) [] = refl
behind-drop (suc n) (x ∷ es) = behind-drop n es

newest_small : (es : List Entry) → length es ≤ max_log_entries → newest es ≡ es
newest_small es h =
    let none_over : length es - max_log_entries ≡ 0 = omega arith in
    ap (λ (n : ℕ). drop n es) none_over

make_room_full : (es : List Entry) → max_log_entries ≤ length es → make_room es ≡ behind es
make_room_full es h = ground arith

newest_snoc :
    (es : List Entry) (e : Entry) → make_room (newest es) ++ e ∷ [] ≡ newest (es ++ e ∷ [])
newest_snoc es e = elim (Bool-cases (ltb (length es) max_log_entries)) [
  | inl lt ↦
      rw
        (
          newest_small es (ground (arith, lt)),
          newest_small (es ++ e ∷ []) (ground (arith, lt, length-append es (e ∷ []))),
          lt,
        )
        refl
  | inr ge ↦
      let full : max_log_entries ≤ length es = ground (arith, ge) in
      let one_over : suc (length es - max_log_entries) ≡ length (es ++ e ∷ []) - max_log_entries =
        omega (arith, full, length-append es (e ∷ [])) in
      ap (λ (t : List Entry). t ++ e ∷ [])
        (make_room_full (newest es)
            (omega (arith, full, length-drop (length es - max_log_entries) es))
          ∙ behind-drop (length es - max_log_entries) es)
      ∙ sym (drop-append (suc (length es - max_log_entries)) es (e ∷ []) (omega (arith, full)))
      ∙ ap (λ (n : ℕ). drop n (es ++ e ∷ [])) one_over
]

-- What one request to the audit log says.
pub record Request : Type 0 where
  pub sys : System
  pub type : AuditType
  pub severity : Severity
  pub source : Option Str
  pub target : Option Str
  pub action : Option Str
  pub result : Option Str
  pub details : Option Str

-- The log holds the newest entries of the history, and counts them all.
pub record Records (history : List Entry) (t : Trail) : Type 0 where
  pub ring : IsRing t.log
  pub wraps : t.log.circular ≡ true
  pub holds : contents t.log ≡ newest history
  pub counts : t.log.total_entries ≡ u64 (length history)

abbrev pub entry_of : Request → Trail → Entry
entry_of r t =
    new_entry r.sys t.correlation t.log.total_entries r.type r.severity r.source r.target r.action
      r.result r.details

abbrev pub submit : Request → Trail → ℤ × Trail
submit r t = ag_audit_add r.sys r.type r.severity r.source r.target r.action r.result r.details t

submit_lem :
    (r : Request) (t : Trail)
    → t.log.circular ≡ true
    → submit r t ≡ (pos 0, recorded r.severity (entry_of r t) t)
unfolding ag_audit_add
submit_lem r t h = ground (arith, h)

push_entry_rest :
    (e : Entry) (log : AuditLog)
    → ((push_entry e log).circular ≡ log.circular)
      × ((push_entry e log).total_entries ≡ u64 (log.total_entries + 1))
unfolding push_entry
push_entry_rest e log = ground arith

pub ag_audit_add-Records :
    (r : Request) (history : List Entry) (t : Trail)
    → Records history t
    → ((submit r t).0 ≡ pos 0) × Records (history ++ entry_of r t ∷ []) (submit r t).1
unfolding recorded
ag_audit_add-Records r history t h = rw (submit_lem r t h.wraps) (
  refl,
  record {
    ring = push_entry-IsRing (entry_of r t) t.log h.ring;
    wraps = (push_entry_rest (entry_of r t) t.log).0 ∙ h.wraps;
    holds =
        push_entry-contents (entry_of r t) t.log h.ring
        ∙ ap (λ (es : List Entry). make_room es ++ entry_of r t ∷ []) h.holds
        ∙ newest_snoc history (entry_of r t);
    counts =
        (push_entry_rest (entry_of r t) t.log).1
        ∙ omega (arith, h.counts, length-append history (entry_of r t ∷ []));
  },
)

abbrev pub trail_of : AuditLog → Str → AgContext → List (ℤ × Option Str) → Trail
trail_of log correlation ctx lines = record {
  log = log;
  correlation = correlation;
  ctx = ctx;
  lines = lines;
}

ready-Records :
    (path : Str) (fd : ℤ) (correlation : Str) (ctx : AgContext) (lines : List (ℤ × Option Str))
    → Records [] (trail_of (ready (empty_log path fd)).1 correlation ctx lines)
unfolding ready empty_log walk
ready-Records path fd correlation ctx lines = record {
  ring = record {
    room = length-replicate max_log_entries cleared;
    count_le = omega arith;
    tail_lt = omega arith;
    head_at = refl;
  };
  wraps = refl;
  holds = refl;
  counts = refl;
}

-- A log that has just been opened records the empty history.
pub ag_audit_init-Records :
    (path : Option Str) (opened : ℤ) (correlation : Str) (ctx : AgContext)
    (lines : List (ℤ × Option Str))
    → (ag_audit_init path opened).0 ≡ pos 0
    → Records [] (trail_of (ag_audit_init path opened).1 correlation ctx lines)
unfolding ag_audit_init
ag_audit_init-Records none opened correlation ctx lines h =
    ready-Records [] (pos 0) correlation ctx lines
ag_audit_init-Records (some []) opened correlation ctx lines h =
    ready-Records [] (pos 0) correlation ctx lines
ag_audit_init-Records (some (c ∷ path)) (pos fd) correlation ctx lines h =
    ready-Records (ag_strlcpy (some (c ∷ path)) max_path_len) (pos fd) correlation ctx lines
ag_audit_init-Records (some (c ∷ path)) (negsuc e) correlation ctx lines h = cc

-- Requests one after the other, and the entries that they make.
abbrev pub submit_all : List Request → Trail → Trail
submit_all [] t = t
submit_all (r ∷ rs) t = submit_all rs (submit r t).1

abbrev pub entries_of : List Request → Trail → List Entry
entries_of [] t = []
entries_of (r ∷ rs) t = entry_of r t ∷ entries_of rs (submit r t).1

submit_all-Records :
    (rs : List Request) (history : List Entry) (t : Trail)
    → Records history t
    → Records (history ++ entries_of rs t) (submit_all rs t)
submit_all-Records [] history t h =
    subst (λ (es : List Entry). Records es t) (sym (append_nil history)) h
submit_all-Records (r ∷ rs) history t h =
    subst (λ (es : List Entry). Records es (submit_all rs (submit r t).1))
      (append_assoc history (entry_of r t ∷ []) (entries_of rs (submit r t).1))
      (submit_all-Records rs (history ++ entry_of r t ∷ []) (submit r t).1
        (ag_audit_add-Records r history t h).1)

-- After any requests to a log that was opened, the ring holds exactly the newest 10,000 of their
-- entries, in the order of the requests, and the counter of entries is the number of the requests
-- modulo 2^64.
pub ag_audit_add-contents :
    (path : Option Str) (opened : ℤ) (correlation : Str) (ctx : AgContext)
    (lines : List (ℤ × Option Str)) (rs : List Request)
    → (ag_audit_init path opened).0 ≡ pos 0
    → let t = trail_of (ag_audit_init path opened).1 correlation ctx lines in
      (contents (submit_all rs t).log ≡ newest (entries_of rs t))
      × ((submit_all rs t).log.total_entries ≡ u64 (length (entries_of rs t)))
ag_audit_add-contents path opened correlation ctx lines rs h =
    let start = ag_audit_init-Records path opened correlation ctx lines h in
    let end =
      submit_all-Records rs [] (trail_of (ag_audit_init path opened).1 correlation ctx lines)
        start in
    (end.holds, end.counts)
