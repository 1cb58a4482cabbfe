-- ===== src/Graph/Nodes.antt =====
-- The nodes of a graph and the processes they stand for.
use mathlib.Core.Option
use agent_guard_fast_path.Common.{
  ℕ, zero, suc, ◌+◌, ◌≤◌, ◌<◌, ◌≡◌, ◌≢◌, refl, ap, ◌∙◌, sym, true, false, not, ◌&&◌, Option, none,
  some, List, [], ◌∷◌, ◌++◌, Str, arith, inl, inr, ◌==◌, ==_iff, if◌then◌else◌, is_empty,
  Bool-cases, Option-cases, length, length-append, length-set, get_or, set, get_or-set,
  get_or-set_ne, ℤ, int_eq, int_eq_self, int_eq_sym, false≢true,
}
use agent_guard_fast_path.Graph.{
  Node, Graph, zero_node, find_by_pid, name_node, new_node, graph_get_or_add,
}

abbrev pub node_at : List Node → ℕ → Node
node_at items i = get_or items i zero_node

-- What `find_by_pid` finds.
abbrev pub Found : List Node → ℤ → Option ℕ → Type 0
Found items pid none = (i : ℕ) → i < length items → int_eq (node_at items i).pid pid ≡ false
Found items pid (some i) = (i < length items) × (int_eq (node_at items i).pid pid ≡ true)

Found-later :
    (n : Node) (items : List Node) (pid : ℤ) (o : Option ℕ)
    → Found items pid o
    → int_eq n.pid pid ≡ false
    → Found (n ∷ items) pid (Option.map (λ (i : ℕ). suc i) o)
Found-later n items pid none h other = first_or_later
  where
    first_or_later :
        (i : ℕ) → i < length (n ∷ items) → int_eq (node_at (n ∷ items) i).pid pid ≡ false
    first_or_later zero lt = other
    first_or_later (suc i) lt = h i (omega arith)
Found-later n items pid (some i) h other = (omega (arith, h.0), h.1)

find_by_pid-Found : (items : List Node) (pid : ℤ) → Found items pid (find_by_pid items pid)
unfolding find_by_pid
find_by_pid-Found [] pid = λ i h. absurd (omega arith)
find_by_pid-Found (n ∷ items) pid = elim (Bool-cases (int_eq n.pid pid)) [
  | inl same ↦ rw same (omega arith, same)
  | inr other ↦
      rw other (Found-later n items pid (find_by_pid items pid) (find_by_pid-Found items pid) other)
]

-- No two nodes stand for one process.
abbrev pub UniquePids : List Node → Type 0
UniquePids items =
    (i j : ℕ)
    → i < length items
    → j < length items
    → int_eq (node_at items i).pid (node_at items j).pid ≡ true
    → i ≡ j

-- What every graph keeps.
pub record IsValid (g : Graph) : Type 0 where
  pub fits : length g.items ≤ g.cap
  pub unique : UniquePids g.items

-- What looking a process up promises: the node is its own, every other node is as it was, and no node
-- moves.
pub record Gives (g : Graph) (pid : ℤ) (result : ℕ × Graph) : Type 0 where
  pub valid : IsValid result.1
  pub inside : result.0 < length result.1.items
  pub own : int_eq (node_at result.1.items result.0).pid pid ≡ true
  pub others :
      (i : ℕ) → i < length g.items → i ≢ result.0 → node_at result.1.items i ≡ node_at g.items i
  pub grows : length g.items ≤ length result.1.items
  pub by_one : length result.1.items ≤ length g.items + 1

pid-name_node : (n : Node) (process : Str) → (name_node n process).pid ≡ n.pid
unfolding name_node
pid-name_node n process = elim (Bool-cases (not (is_empty process) && is_empty n.process)) [
  | inl e ↦ rw e refl
  | inr e ↦ rw e refl
]

-- Replacing a node by one of the same process.
module _ (items : List Node) (i : ℕ) (n : Node) (lt : i < length items)
    (same : n.pid ≡ (node_at items i).pid) where
  pid-set : (j : ℕ) → (node_at (set items i n) j).pid ≡ (node_at items j).pid
  pid-set j = elim (Bool-cases (i == j)) [
    | inl e ↦
        let e' : i ≡ j = (==_iff i j).0 e in
        rw (get_or-set items i j n zero_node lt, e)
          (same ∙ ap (λ (k : ℕ). (node_at items k).pid) e')
    | inr e ↦ rw (get_or-set items i j n zero_node lt, e) refl
  ]

  UniquePids-set : UniquePids items → UniquePids (set items i n)
  UniquePids-set u a b la lb e =
      u a b (omega (arith, length-set items i n)) (omega (arith, length-set items i n))
        (rw (pid-set a, pid-set b) at e)

-- Adding a node.
node_at-append :
    (items : List Node) (n : Node) (j : ℕ)
    → node_at (items ++ n ∷ []) j ≡ (if j == length items then n else node_at items j)
node_at-append [] n zero = refl
node_at-append [] n (suc j) = ground arith
node_at-append (x ∷ items) n zero = ground arith
node_at-append (x ∷ items) n (suc j) = ground (arith, node_at-append items n j)

UniquePids-append :
    (items : List Node) (n : Node)
    → UniquePids items
    → ((i : ℕ) → i < length items → int_eq (node_at items i).pid n.pid ≡ false)
    → UniquePids (items ++ n ∷ [])
UniquePids-append items n u fresh a b la lb e =
    let room = length-append items (n ∷ []) in
    let at_a = node_at-append items n a in
    let at_b = node_at-append items n b in
    elim (Bool-cases (a == length items)) [
      | inl ea ↦ elim (Bool-cases (b == length items)) [
        | inl eb ↦ ground (arith, ea, eb)
        | inr eb ↦
            let clash : int_eq n.pid (node_at items b).pid ≡ true = rw (at_a, at_b, ea, eb) at e in
            absurd (
              false≢true (
                sym (fresh b (ground (arith, room, lb, eb)))
                ∙ int_eq_sym (node_at items b).pid n.pid
                ∙ clash))
      ]
      | inr ea ↦ elim (Bool-cases (b == length items)) [
        | inl eb ↦
            let clash : int_eq (node_at items a).pid n.pid ≡ true = rw (at_a, at_b, ea, eb) at e in
            absurd (false≢true (sym (fresh a (ground (arith, room, la, ea))) ∙ clash))
        | inr eb ↦
            u a b (ground (arith, room, la, ea)) (ground (arith, room, lb, eb))
              (rw (at_a, at_b, ea, eb) at e)
      ]
    ]

pid-new_node : (pid : ℤ) (process : Str) → (new_node pid process).pid ≡ pid
unfolding new_node
pid-new_node pid process = refl

-- `graph_get_or_add` keeps a graph without two nodes for one process and within its capacity, answers
-- with the node of the process, adds at most one node, and changes no other.
pub graph_get_or_add-Gives :
    (g : Graph) (pid : ℤ) (process : Str) → IsValid g → Gives g pid (graph_get_or_add g pid process)
unfolding graph_get_or_add
graph_get_or_add-Gives g pid process v = elim (Option-cases (find_by_pid g.items pid)) [
  | inl e ↦
      let fresh : Found g.items pid none = rw e at (find_by_pid-Found g.items pid) in
      let n = new_node pid process in
      let more = length-append g.items (n ∷ []) in
      let last : node_at (g.items ++ n ∷ []) (length g.items) ≡ n =
        ground (arith, node_at-append g.items n (length g.items)) in
      rw (graph_get_or_add, e)
        (record {
          valid = record {
            fits = ground (arith, more, v.fits);
            unique = UniquePids-append g.items n v.unique fresh;
          };
          inside = omega (arith, more);
          own = rw last (int_eq_self pid);
          others = λ i lt ne. ground (arith, node_at-append g.items n i);
          grows = omega (arith, more);
          by_one = omega (arith, more);
        })
  | inr (i, e) ↦
      let here : Found g.items pid (some i) = rw e at (find_by_pid-Found g.items pid) in
      let n = name_node (node_at g.items i) process in
      let same = pid-name_node (node_at g.items i) process in
      let size = length-set g.items i n in
      rw (graph_get_or_add, e)
        (record {
          valid = record {
            fits = omega (arith, size, v.fits);
            unique = UniquePids-set g.items i n here.0 same v.unique;
          };
          inside = omega (arith, size, here.0);
          own = rw (pid-set g.items i n here.0 same i) here.1;
          others = λ j lt ne. get_or-set_ne g.items i j n zero_node (λ k. ne (sym k));
          grows = omega (arith, size);
          by_one = omega (arith, size);
        })
]
