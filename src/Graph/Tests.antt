-- ===== src/Graph/Tests.antt =====
-- The theorem on the nodes of a graph, at a graph of one process that a second one joins.
use agent_guard_fast_path.Common.{[], ◌∷◌, arith, pos}
use agent_guard_fast_path.Text.{codes}
use agent_guard_fast_path.Graph.{Graph, zero_node, graph_get_or_add}
use agent_guard_fast_path.Graph.Nodes.{IsValid, Gives, graph_get_or_add-Gives}

abbrev one : Graph
one = record { items = zero_node ∷ []; cap = 64 }

one-IsValid : IsValid one
one-IsValid = record { fits = omega arith; unique = λ i j a b e. omega (arith, a, b) }

graph_get_or_add-Gives_example : Gives one (pos 7) (graph_get_or_add one (pos 7) (codes "sshd"))
graph_get_or_add-Gives_example = graph_get_or_add-Gives one (pos 7) (codes "sshd") one-IsValid
