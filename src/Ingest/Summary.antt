-- ===== src/Ingest/Summary.antt =====
-- The flags of a process in the graph are those of its own events.
use agent_guard_fast_path.Common.{
  ℕ, ◌+◌, ◌≡◌, refl, ap, ◌∙◌, Bool, true, false, not, ◌&&◌, ◌||◌, List, [], ◌∷◌, Str, if◌then◌else◌,
  Bool-cases, inl, inr, is_empty, ℤ, int_eq, u64,
}
use agent_guard_fast_path.Policy.{Policy, policy_is_watched_process, policy_is_sensitive_file}
use agent_guard_fast_path.Graph.{Event, Node, graph_add_timeline_event}
use agent_guard_fast_path.Ingest.{
  DestMatch, dest_none, dest_blocked_ip, dest_blocked_domain, destination_blocked, is_ip, is_domain,
  note_event, note_file, note_destination, note_blocked, note_policy, note,
}

-- What the risk score reads of a node, without its lists.
pub record Flags : Type 0 where
  pub watched : Bool
  pub touched_sensitive : Bool
  pub connected : Bool
  pub blocked_ip : Bool
  pub blocked_domain : Bool
  pub seen : ℕ

abbrev pub flags : Node → Flags
flags n = record {
  watched = n.watched;
  touched_sensitive = n.touched_sensitive;
  connected = n.connected;
  blocked_ip = n.connected_blocked_ip;
  blocked_domain = n.connected_blocked_domain;
  seen = n.events_seen;
}

abbrev pub no_flags : Flags
no_flags = record {
  watched = false;
  touched_sensitive = false;
  connected = false;
  blocked_ip = false;
  blocked_domain = false;
  seen = 0;
}

-- The flags of the node of a process.
unfoldable pub flags_of : List Node → ℤ → Flags
flags_of [] pid = no_flags
flags_of (n ∷ items) pid =
    let rest = flags_of items pid in if int_eq n.pid pid then flags n else rest

-- What one event adds to the flags of its process.
unfoldable pub hit : (Str → Str → Bool) → Policy → Bool → Event → Flags → Flags
hit fnmatch p loaded ev f =
    let found = (destination_blocked p ev).1 in
    record {
      watched = f.watched || loaded && policy_is_watched_process p ev.process;
      touched_sensitive =
          f.touched_sensitive
          || not (is_empty ev.file) && (loaded && policy_is_sensitive_file fnmatch p ev.file);
      connected =
          f.connected || not (is_empty ev.dst) || loaded && (is_ip found || is_domain found);
      blocked_ip = f.blocked_ip || loaded && is_ip found;
      blocked_domain = f.blocked_domain || loaded && is_domain found;
      seen = u64 (f.seen + 1);
    }

-- Only the events of the process itself, in their order.
unfoldable pub summary : (Str → Str → Bool) → Policy → Bool → List Event → ℤ → Flags → Flags
summary fnmatch p loaded [] pid f = f
summary fnmatch p loaded (ev ∷ evs) pid f =
    summary fnmatch p loaded evs pid (if int_eq ev.pid pid then hit fnmatch p loaded ev f else f)

-- The four steps of a note, on the flags.
abbrev on_event : Flags → Flags
on_event f = record f { seen = u64 (f.seen + 1) }

abbrev on_file : Bool → Flags → Flags
on_file sensitive f = record f { touched_sensitive = f.touched_sensitive || sensitive }

abbrev on_destination : Bool → Flags → Flags
on_destination named f = record f { connected = f.connected || named }

abbrev on_policy : Bool → Bool → DestMatch → Flags → Flags
on_policy loaded watched found f = record f {
  watched = f.watched || loaded && watched;
  connected = f.connected || loaded && (is_ip found || is_domain found);
  blocked_ip = f.blocked_ip || loaded && is_ip found;
  blocked_domain = f.blocked_domain || loaded && is_domain found;
}

-- A step on a node is this step on its flags, and keeps its process.
abbrev pub Steps : (Flags → Flags) → Node → Node → Type 0
Steps step n m = (flags m ≡ step (flags n)) × (m.pid ≡ n.pid)

or_false : (b : Bool) → (b || false) ≡ b
or_false true = refl
or_false false = refl

or_true : (b : Bool) → (b || true) ≡ true
or_true true = refl
or_true false = refl

note_event-Steps : (n : Node) (ev : Event) → Steps on_event n (note_event n ev)
unfolding note_event graph_add_timeline_event
note_event-Steps n ev = elim (Bool-cases (is_empty ev.event)) [
  | inl e ↦ rw e (refl, refl)
  | inr e ↦ rw e (refl, refl)
]

note_file-Steps :
    (fnmatch : Str → Str → Bool) (p : Policy) (loaded : Bool) (n : Node) (ev : Event)
    → Steps
        (on_file (not (is_empty ev.file) && (loaded && policy_is_sensitive_file fnmatch p ev.file)))
        n
        (note_file fnmatch p loaded n ev)
unfolding note_file
note_file-Steps fnmatch p loaded n ev = elim (Bool-cases (is_empty ev.file)) [
  | inl e ↦ rw (e, or_false n.touched_sensitive) (refl, refl)
  | inr e ↦ elim (Bool-cases (loaded && policy_is_sensitive_file fnmatch p ev.file)) [
    | inl k ↦ rw (e, k, or_true n.touched_sensitive) (refl, refl)
    | inr k ↦ rw (e, k, or_false n.touched_sensitive) (refl, refl)
  ]
]

note_destination-Steps :
    (n : Node) (ev : Event)
    → Steps (on_destination (not (is_empty ev.dst))) n (note_destination n ev)
unfolding note_destination
note_destination-Steps n ev = elim (Bool-cases (is_empty ev.dst)) [
  | inl e ↦ rw (e, or_false n.connected) (refl, refl)
  | inr e ↦ rw (e, or_true n.connected) (refl, refl)
]

note_blocked-Steps :
    (watched : Bool) (n : Node) (d : Str) (found : DestMatch)
    → Steps
        (on_policy true watched found)
        n
        (note_blocked (record n { watched = n.watched || watched }) (d, found))
unfolding note_blocked
note_blocked-Steps watched n d dest_none = (
  rw (or_false n.connected, or_false n.connected_blocked_ip, or_false n.connected_blocked_domain)
      refl,
  refl,
)
note_blocked-Steps watched n d dest_blocked_ip = (
  rw (or_true n.connected, or_true n.connected_blocked_ip, or_false n.connected_blocked_domain)
      refl,
  refl,
)
note_blocked-Steps watched n d dest_blocked_domain = (
  rw (or_true n.connected, or_false n.connected_blocked_ip, or_true n.connected_blocked_domain)
      refl,
  refl,
)

note_policy-Steps :
    (p : Policy) (loaded : Bool) (n : Node) (ev : Event)
    → Steps
        (on_policy loaded (policy_is_watched_process p ev.process) (destination_blocked p ev).1)
        n
        (note_policy p loaded n ev)
unfolding note_policy
note_policy-Steps p true n ev =
    note_blocked-Steps (policy_is_watched_process p ev.process) n (destination_blocked p ev).0
      (destination_blocked p ev).1
note_policy-Steps p false n ev = (
  rw
      (
        or_false n.watched,
        or_false n.connected,
        or_false n.connected_blocked_ip,
        or_false n.connected_blocked_domain,
      )
      refl,
  refl,
)

pub note-Steps :
    (fnmatch : Str → Str → Bool) (p : Policy) (loaded : Bool) (n : Node) (ev : Event)
    → Steps (hit fnmatch p loaded ev) n (note fnmatch p loaded n ev)
unfolding note hit
note-Steps fnmatch p loaded n ev =
    let a = note_event n ev in
    let b = note_file fnmatch p loaded a ev in
    let c = note_destination b ev in
    let (fa, pa) = note_event-Steps n ev in
    let (fb, pb) = note_file-Steps fnmatch p loaded a ev in
    let (fc, pc) = note_destination-Steps b ev in
    let (fd, pd) = note_policy-Steps p loaded c ev in
    let step_b =
      on_file (not (is_empty ev.file) && (loaded && policy_is_sensitive_file fnmatch p ev.file)) in
    let step_c = on_destination (not (is_empty ev.dst)) in
    let step_d =
      on_policy loaded (policy_is_watched_process p ev.process) (destination_blocked p ev).1 in
    (fd ∙ ap step_d (fc ∙ ap step_c (fb ∙ ap step_b fa)), pd ∙ pc ∙ pb ∙ pa)
