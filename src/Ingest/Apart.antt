-- ===== src/Ingest/Apart.antt =====
-- The graph keeps the processes apart.
use mathlib.Core.Option
use agent_guard_fast_path.Common.{
  ℕ, zero, suc, ◌<◌, ◌≡◌, refl, sym, ap, ◌∙◌, Bool, true, false, false≢true, not, ◌&&◌, Option,
  none, some, List, [], ◌∷◌, ◌++◌, Str, arith, if◌then◌else◌, Bool-cases, inl, inr, is_empty,
  length, get_or, set, get_or-set_self, ℤ, int_eq, int_eq_iff, int_eq_self,
}
use agent_guard_fast_path.Policy.{Policy}
use agent_guard_fast_path.Graph.{
  Event, Node, Graph, zero_node, find_by_pid, name_node, new_node, graph_get_or_add,
}
use agent_guard_fast_path.Ingest.{note, graph_ingest_event}
use agent_guard_fast_path.Ingest.Summary.{
  Flags, flags, no_flags, flags_of, hit, summary, Steps, note-Steps,
}

-- The flags of `q` where those of `pid` are replaced.
abbrev replacing : ℤ → Flags → List Node → ℤ → Flags
replacing pid f items q = if int_eq pid q then f else flags_of items q

-- What `find_by_pid` finds in a longer list.
find-here :
    (n : Node) (items : List Node) (pid : ℤ)
    → int_eq n.pid pid ≡ true
    → find_by_pid (n ∷ items) pid ≡ some 0
unfolding find_by_pid
find-here n items pid e = rw e refl

find-later :
    (n : Node) (items : List Node) (pid : ℤ)
    → int_eq n.pid pid ≡ false
    → find_by_pid (n ∷ items) pid ≡ Option.map (λ (i : ℕ). suc i) (find_by_pid items pid)
unfolding find_by_pid
find-later n items pid e = rw e refl

-- A process that is found at an index: the flags there are its own, and a node of the same process put
-- there replaces them.
abbrev FoundAt : List Node → ℤ → ℕ → Type 0
FoundAt items pid i =
    (i < length items)
    × (flags_of items pid ≡ flags (get_or items i zero_node))
    × ((get_or items i zero_node).pid ≡ pid)
    × ((m : Node) (q : ℤ)
        → m.pid ≡ pid
        → flags_of (set items i m) q ≡ replacing pid (flags m) items q)

abbrev NotFound : List Node → ℤ → Type 0
NotFound items pid =
    (flags_of items pid ≡ no_flags)
    × ((m : Node) (q : ℤ)
        → m.pid ≡ pid
        → flags_of (items ++ m ∷ []) q ≡ replacing pid (flags m) items q)

abbrev Finds : List Node → ℤ → Option ℕ → Type 0
Finds items pid none = NotFound items pid
Finds items pid (some i) = FoundAt items pid i

here :
    (n : Node) (items : List Node) (pid : ℤ) → int_eq n.pid pid ≡ true → FoundAt (n ∷ items) pid 0
unfolding flags_of
here n items pid e =
    let same = (int_eq_iff n.pid pid).0 e in
    (
      omega arith,
      rw e refl,
      same,
      λ m q own.
          ap (λ (t : ℤ). if int_eq t q then flags m else flags_of items q) own ∙ inside m q same,
    )
  where
    inside :
        (m : Node) (q : ℤ)
        → n.pid ≡ pid
        → (if int_eq pid q then flags m else flags_of items q) ≡ (
            if int_eq pid q
            then flags m
            else (if int_eq n.pid q then flags n else flags_of items q))
    inside m q same = elim (Bool-cases (int_eq pid q)) [
      | inl k ↦ rw k refl
      | inr k ↦ rw (k, ap (λ (t : ℤ). int_eq t q) same ∙ k) refl
    ]

-- A node of another process in front changes neither.
module _ (n : Node) (pid : ℤ) (e : int_eq n.pid pid ≡ false) where
  skip :
      (items after : List Node) (f : Flags) (q : ℤ)
      → flags_of after q ≡ replacing pid f items q
      → flags_of (n ∷ after) q ≡ replacing pid f (n ∷ items) q
  unfolding flags_of
  skip items after f q h = elim (Bool-cases (int_eq n.pid q)) [
    | inl k ↦ rw k (rw (other k) refl)
    | inr k ↦ rw k h
  ]
    where
      other : int_eq n.pid q ≡ true → int_eq pid q ≡ false
      other k = elim (Bool-cases (int_eq pid q)) [
        | inl same ↦ absurd (
            false≢true (
              sym e
              ∙ ap (λ (t : ℤ). int_eq t pid)
                  ((int_eq_iff n.pid q).0 k ∙ sym ((int_eq_iff pid q).0 same))
              ∙ int_eq_self pid))
        | inr differs ↦ differs
      ]

  later :
      (items : List Node) (o : Option ℕ)
      → Finds items pid o
      → Finds (n ∷ items) pid (Option.map (λ (i : ℕ). suc i) o)
  unfolding flags_of
  later items none (first, rest) =
      (rw e first, λ m q own. skip items (items ++ m ∷ []) (flags m) q (rest m q own))
  later items (some i) (below, first, same, rest) = (
    omega (arith, below),
    rw e first,
    same,
    λ m q own. skip items (set items i m) (flags m) q (rest m q own),
  )

alone :
    (pid : ℤ) (m : Node) (q : ℤ) → m.pid ≡ pid → flags_of (m ∷ []) q ≡ replacing pid (flags m) [] q
unfolding flags_of
alone pid m q own = ap (λ (t : ℤ). if int_eq t q then flags m else no_flags) own

find_by_pid-Finds : (items : List Node) (pid : ℤ) → Finds items pid (find_by_pid items pid)
find_by_pid-Finds [] pid = unfold find_by_pid flags_of in (refl, alone pid)
find_by_pid-Finds (n ∷ items) pid = elim (Bool-cases (int_eq n.pid pid)) [
  | inl e ↦ rw (find-here n items pid e) (here n items pid e)
  | inr e ↦
      rw (find-later n items pid e)
        (later n pid e items (find_by_pid items pid) (find_by_pid-Finds items pid))
]

set_again : (items : List Node) (i : ℕ) (a b : Node) → set (set items i a) i b ≡ set items i b
set_again [] i a b = refl
set_again (x ∷ items) zero a b = refl
set_again (x ∷ items) (suc i) a b = ap (λ (t : List Node). x ∷ t) (set_again items i a b)

get_or-end : (items : List Node) (a : Node) → get_or (items ++ a ∷ []) (length items) zero_node ≡ a
get_or-end [] a = refl
get_or-end (x ∷ items) a = get_or-end items a

set-end :
    (items : List Node) (a b : Node) → set (items ++ a ∷ []) (length items) b ≡ items ++ b ∷ []
set-end [] a b = refl
set-end (x ∷ items) a b = ap (λ (t : List Node). x ∷ t) (set-end items a b)

name_node-Steps : (n : Node) (process : Str) → Steps (λ f. f) n (name_node n process)
unfolding name_node
name_node-Steps n process = elim (Bool-cases (not (is_empty process) && is_empty n.process)) [
  | inl e ↦ rw e (refl, refl)
  | inr e ↦ rw e (refl, refl)
]

module _ (fnmatch : Str → Str → Bool) (p : Policy) (loaded : Bool) (g : Graph) (ev : Event) where
  -- The nodes after an event of a known process, and after one of a new process.
  ingest_known :
      (i : ℕ)
      → find_by_pid g.items ev.pid ≡ some i
      → i < length g.items
      → (graph_ingest_event fnmatch g p loaded ev).items
        ≡ set g.items i
            (note fnmatch p loaded (name_node (get_or g.items i zero_node) ev.process) ev)
  unfolding graph_ingest_event graph_get_or_add
  ingest_known i e h =
      let n = name_node (get_or g.items i zero_node) ev.process in
      ground (
        arith,
        e,
        get_or-set_self g.items i n zero_node h,
        set_again g.items i n (note fnmatch p loaded n ev),
      )

  ingest_new :
      find_by_pid g.items ev.pid ≡ none
      → (graph_ingest_event fnmatch g p loaded ev).items
        ≡ g.items ++ note fnmatch p loaded (new_node ev.pid ev.process) ev ∷ []
  unfolding graph_ingest_event graph_get_or_add
  ingest_new e =
      let n = new_node ev.pid ev.process in
      ground (arith, e, get_or-end g.items n, set-end g.items n (note fnmatch p loaded n ev))

  new_node-flags :
      (flags (new_node ev.pid ev.process) ≡ no_flags) × ((new_node ev.pid ev.process).pid ≡ ev.pid)
  unfolding new_node
  new_node-flags = (refl, refl)

  ingest-flags :
      (q : ℤ)
      → flags_of (graph_ingest_event fnmatch g p loaded ev).items q
        ≡ replacing ev.pid (hit fnmatch p loaded ev (flags_of g.items ev.pid)) g.items q
  ingest-flags q = from (find_by_pid g.items ev.pid) refl (find_by_pid-Finds g.items ev.pid)
    where
      goes :
          (f : Flags)
          → f ≡ hit fnmatch p loaded ev (flags_of g.items ev.pid)
          → replacing ev.pid f g.items q
            ≡ replacing ev.pid (hit fnmatch p loaded ev (flags_of g.items ev.pid)) g.items q
      goes f same = ap (λ (t : Flags). replacing ev.pid t g.items q) same

      from :
          (o : Option ℕ)
          → find_by_pid g.items ev.pid ≡ o
          → Finds g.items ev.pid o
          → flags_of (graph_ingest_event fnmatch g p loaded ev).items q
            ≡ replacing ev.pid (hit fnmatch p loaded ev (flags_of g.items ev.pid)) g.items q
      from none e (first, rest) =
          let n = new_node ev.pid ev.process in
          let (f, own) = note-Steps fnmatch p loaded n ev in
          ap (λ (items : List Node). flags_of items q) (ingest_new e)
          ∙ rest (note fnmatch p loaded n ev) q (own ∙ new_node-flags.1)
          ∙ goes (flags (note fnmatch p loaded n ev))
              (f ∙ ap (hit fnmatch p loaded ev) (new_node-flags.0 ∙ sym first))
      from (some i) e (below, first, same, rest) =
          let old = get_or g.items i zero_node in
          let n = name_node old ev.process in
          let (f, own) = note-Steps fnmatch p loaded n ev in
          let (named, kept) = name_node-Steps old ev.process in
          ap (λ (items : List Node). flags_of items q) (ingest_known i e below)
          ∙ rest (note fnmatch p loaded n ev) q (own ∙ kept ∙ same)
          ∙ goes (flags (note fnmatch p loaded n ev))
              (f ∙ ap (hit fnmatch p loaded ev) (named ∙ sym first))

-- The graph after a list of events.
abbrev pub ingest_all : (Str → Str → Bool) → Policy → Bool → Graph → List Event → Graph
ingest_all fnmatch p loaded g [] = g
ingest_all fnmatch p loaded g (ev ∷ evs) =
    ingest_all fnmatch p loaded (graph_ingest_event fnmatch g p loaded ev) evs

-- Whatever the order in which the events of several processes arrive, the flags and the counter of the
-- node of a process are those that its own events give, in their order, from what the node had before:
-- no event of another process changes them.
pub ingest_all-summary :
    (fnmatch : Str → Str → Bool) (p : Policy) (loaded : Bool) (g : Graph) (evs : List Event)
    (pid : ℤ)
    → flags_of (ingest_all fnmatch p loaded g evs).items pid
      ≡ summary fnmatch p loaded evs pid (flags_of g.items pid)
unfolding summary
ingest_all-summary fnmatch p loaded g [] pid = refl
ingest_all-summary fnmatch p loaded g (ev ∷ evs) pid =
    ingest_all-summary fnmatch p loaded (graph_ingest_event fnmatch g p loaded ev) evs pid
    ∙ ap (summary fnmatch p loaded evs pid) (ingest-flags fnmatch p loaded g ev pid ∙ own)
  where
    own : replacing ev.pid (hit fnmatch p loaded ev (flags_of g.items ev.pid)) g.items pid ≡ (
        if int_eq ev.pid pid
        then hit fnmatch p loaded ev (flags_of g.items pid)
        else flags_of g.items pid)
    own = elim (Bool-cases (int_eq ev.pid pid)) [
      | inl e ↦ rw e (
          ap (λ (t : ℤ). hit fnmatch p loaded ev (flags_of g.items t))
            ((int_eq_iff ev.pid pid).0 e))
      | inr e ↦ rw e refl
    ]
