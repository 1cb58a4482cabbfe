-- ===== src/Ingest/Lines.antt =====
-- A file of events as the events of its lines.
use agent_guard_fast_path.Common.{
  ◌+◌, ◌≡◌, refl, sym, ap, ap₂, ◌∙◌, Bool, true, false, ◌&&◌, Option, List, [], ◌∷◌, ◌++◌, Str,
  arith, leb, if◌then◌else◌, Bool-cases, inl, inr, length, map, ℤ, pos, int_eq, u64, to_u64,
}
use agent_guard_fast_path.Text.{trim_newline, codes}
use agent_guard_fast_path.StringList.{list_free, count}
use agent_guard_fast_path.Policy.{Policy, RiskWeights}
use agent_guard_fast_path.Graph.{Event, Node, Graph}
use agent_guard_fast_path.Risk.{add_reason, add_reasons, compute_risk_for_node, compute_risk_all}
use agent_guard_fast_path.Parser.{parse_event_line}
use agent_guard_fast_path.Ingest.{
  Loaded, is_comment, graph_ingest_event, load_line, load_lines, load_graph_from_events,
}
use agent_guard_fast_path.Ingest.Summary.{Flags, flags, flags_of, summary, Steps}
use agent_guard_fast_path.Ingest.Apart.{ingest_all, ingest_all-summary}

-- The event of a line, if it is one, and those of a file.
unfoldable pub event_of_line : (Str → Option ℤ) → Event → Str → List Event
event_of_line strtol before raw =
    let r = parse_event_line strtol (trim_newline raw) before in
    if is_comment (trim_newline raw) then [] else if r.accepted then r.ev ∷ [] else []

abbrev pub events_of : (Str → Option ℤ) → Event → List Str → List Event
events_of strtol before [] = []
events_of strtol before (raw ∷ lines) =
    event_of_line strtol before raw ++ events_of strtol before lines

ingest_all-append :
    (fnmatch : Str → Str → Bool) (p : Policy) (loaded : Bool) (g : Graph) (es fs : List Event)
    → ingest_all fnmatch p loaded g (es ++ fs)
      ≡ ingest_all fnmatch p loaded (ingest_all fnmatch p loaded g es) fs
ingest_all-append fnmatch p loaded g [] fs = refl
ingest_all-append fnmatch p loaded g (ev ∷ es) fs =
    ingest_all-append fnmatch p loaded (graph_ingest_event fnmatch g p loaded ev) es fs

length-append_events : (es fs : List Event) → length (es ++ fs) ≡ length es + length fs
length-append_events [] fs = omega arith
length-append_events (e ∷ es) fs = omega (arith, length-append_events es fs)

module _ (strtol : Str → Option ℤ) (fnmatch : Str → Str → Bool) (p : Policy) (loaded : Bool)
    (before : Event) where
  line_lem :
      (l : Loaded) (raw : Str)
      → l.events_processed ≡ u64 l.events_processed
      → let es = event_of_line strtol before raw in
        let l' = load_line strtol fnmatch p loaded before l raw in
        (l'.graph ≡ ingest_all fnmatch p loaded l.graph es)
        × (l'.events_processed ≡ u64 (l.events_processed + length es))
  unfolding load_line event_of_line
  line_lem l raw h = elim (Bool-cases (is_comment (trim_newline raw))) [
    | inl e ↦ rw e (refl, h ∙ ap u64 (omega arith))
    | inr e ↦ elim (Bool-cases (parse_event_line strtol (trim_newline raw) before).accepted) [
      | inl k ↦ rw (e, k) (refl, refl)
      | inr k ↦ elim (Bool-cases (parse_event_line strtol (trim_newline raw) before).header) [
        | inl t ↦ rw (e, k, t) (refl, h ∙ ap u64 (omega arith))
        | inr t ↦ rw (e, k, t) (refl, h ∙ ap u64 (omega arith))
      ]
    ]
  ]

  lines_lem :
      (lines : List Str) (l : Loaded)
      → l.events_processed ≡ u64 l.events_processed
      → let es = events_of strtol before lines in
        let l' = load_lines strtol fnmatch p loaded before l lines in
        (l'.graph ≡ ingest_all fnmatch p loaded l.graph es)
        × (l'.events_processed ≡ u64 (l.events_processed + length es))
  unfolding load_lines
  lines_lem [] l h = (refl, h ∙ ap u64 (omega arith))
  lines_lem (raw ∷ lines) l h =
      let now = load_line strtol fnmatch p loaded before l raw in
      let es = event_of_line strtol before raw in
      let fs = events_of strtol before lines in
      let (graph, processed) = line_lem l raw h in
      let (graphs, all) = lines_lem lines now (omega (arith, processed)) in
      (
        graphs
            ∙ ap (λ (g : Graph). ingest_all fnmatch p loaded g fs) graph
            ∙ sym (ingest_all-append fnmatch p loaded l.graph es fs),
        omega (arith, all, processed, length-append_events es fs),
      )

-- The score changes no flag.
add_reason-Steps :
    (holds : Bool) (weight : ℤ) (reason : Str) (n : Node)
    → Steps (λ f. f) n (add_reason holds weight reason n)
unfolding add_reason
add_reason-Steps true weight reason n = (refl, refl)
add_reason-Steps false weight reason n = (refl, refl)

-- One more reason.
and_reason :
    (n m : Node) (holds : Bool) (weight : ℤ) (reason : Str)
    → Steps (λ f. f) n m
    → Steps (λ f. f) n (add_reason holds weight reason m)
and_reason n m holds weight reason (f, p) =
    let (g, q) = add_reason-Steps holds weight reason m in (g ∙ f, q ∙ p)

add_reasons-Steps : (n : Node) (w : RiskWeights) → Steps (λ f. f) n (add_reasons n w)
unfolding add_reasons
add_reasons-Steps n w =
    let n0 = record n { risk_reasons = list_free n.risk_reasons; risk_score = pos 0 } in
    let n1 = add_reason n.watched w.watched_process (codes "watched_process") n0 in
    let n2 = add_reason n.touched_sensitive w.sensitive_file (codes "sensitive_file_access") n1 in
    let n3 = add_reason n.connected_blocked_ip w.blocked_ip (codes "blocked_ip_contact") n2 in
    let n4 =
      add_reason n.connected_blocked_domain w.blocked_domain (codes "blocked_domain_contact") n3 in
    let n5 =
      add_reason (n.touched_sensitive && n.connected) w.network_after_file
        (codes "network_after_file_access") n4 in
    let n6 =
      add_reason (leb (to_u64 w.high_unique_destination_threshold) (count n.destinations))
        w.high_unique_destinations (codes "high_unique_destinations") n5 in
    and_reason n n6 _ _ _ (
      and_reason n n5 _ _ _ (
        and_reason n n4 _ _ _ (
          and_reason n n3 _ _ _
            (and_reason n n2 _ _ _ (and_reason n n1 _ _ _ (and_reason n n0 _ _ _ (refl, refl)))))))

compute_risk_for_node-Steps :
    (n : Node) (w : RiskWeights) → Steps (λ f. f) n (compute_risk_for_node n w)
unfolding compute_risk_for_node
compute_risk_for_node-Steps n w = add_reasons-Steps n w

flags_of-scored :
    (items : List Node) (w : RiskWeights) (pid : ℤ)
    → flags_of (map (λ n. compute_risk_for_node n w) items) pid ≡ flags_of items pid
unfolding flags_of
flags_of-scored [] w pid = refl
flags_of-scored (n ∷ items) w pid =
    let (same, own) = compute_risk_for_node-Steps n w in
    ap
      (λ (t : ℤ).
        if int_eq t pid
        then flags (compute_risk_for_node n w)
        else flags_of (map (λ m. compute_risk_for_node m w) items) pid)
      own
    ∙ ap₂ (λ (f g : Flags). if int_eq n.pid pid then f else g) same (flags_of-scored items w pid)

-- A graph loaded from a file of events: the flags of each process are those that its own accepted lines
-- give in their order, after the scores are computed too, whatever other lines stand between them,
-- comments, headers and lines that do not parse included; and as many events are counted as lines were
-- accepted, modulo 2^64.
pub load_graph_from_events-summary :
    (strtol : Str → Option ℤ) (fnmatch : Str → Str → Bool) (p : Policy) (loaded : Bool)
    (before : Event) (g : Graph) (lines : List Str) (pid : ℤ)
    → let evs = events_of strtol before lines in
      let l = load_graph_from_events strtol fnmatch p loaded before g lines in
      (flags_of l.graph.items pid ≡ summary fnmatch p loaded evs pid (flags_of g.items pid))
      × (l.events_processed ≡ u64 (length evs))
unfolding load_graph_from_events compute_risk_all
load_graph_from_events-summary strtol fnmatch p loaded before g lines pid = scored loaded refl
  where
    start : Loaded
    start = record { graph = g; events_processed = 0; malformed_lines = 0 }

    evs : List Event
    evs = events_of strtol before lines

    end : Loaded
    end = load_lines strtol fnmatch p loaded before start lines

    read :
        (end.graph ≡ ingest_all fnmatch p loaded g evs)
        × (end.events_processed ≡ u64 (0 + length evs))
    read = lines_lem strtol fnmatch p loaded before lines start refl

    whole : flags_of end.graph.items pid ≡ summary fnmatch p loaded evs pid (flags_of g.items pid)
    whole =
        ap (λ (h : Graph). flags_of h.items pid) read.0
        ∙ ingest_all-summary fnmatch p loaded g evs pid

    scored :
        (scores : Bool)
        → loaded ≡ scores
        → let l =
            if scores then record end { graph = compute_risk_all end.graph p.weights } else end in
          (flags_of l.graph.items pid ≡ summary fnmatch p loaded evs pid (flags_of g.items pid))
          × (l.events_processed ≡ u64 (length evs))
    scored true e =
        (flags_of-scored end.graph.items p.weights pid ∙ whole, read.1 ∙ ap u64 (omega arith))
    scored false e = (whole, read.1 ∙ ap u64 (omega arith))
