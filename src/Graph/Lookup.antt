-- ===== src/Graph/Lookup.antt =====
-- What a lookup sees after each operation of the call graph that adds to it.
use mathlib.Core.Option
use lspgraph.Base.{Option, none, some, ◌≡◌, ite, arith}
use lspgraph.Base.Map.{get-insert, get-update}
use lspgraph.Graph.{
  NodeId, NodeId-discrete, Node, NodeState, expanded, Expansion, CallGraph, get_node, callers_of,
  callees_of, refresh, upsert, with_state, set_state, record_expansion,
}

-- The node that `upsert` leaves under the id.
abbrev pub merged : Node → Option Node → Node
merged node none = node
merged node (some existing) = record existing { kind_name = node.kind_name; detail = node.detail }

-- `upsert` changes the entry of its id alone. A node that is there keeps its id and its state and
-- takes the new kind and detail; the edges stay.
pub get_node-upsert :
    (g : CallGraph) (node : Node) (j : NodeId)
    → (get_node (upsert g node) j
        ≡ ite (NodeId-discrete node.id j) (some (merged node (get_node g node.id))) (get_node g j))
      × ((upsert g node).callers ≡ g.callers)
      × ((upsert g node).callees ≡ g.callees)
unfolding upsert refresh
get_node-upsert g node j = ground (
  arith,
  get-insert NodeId-discrete node.id j node g.nodes,
  get-update NodeId-discrete node.id j (refresh node) g.nodes,
)

-- `set_state` writes the state of a node that is there, and inserts nothing.
pub get_node-set_state :
    (g : CallGraph) (id j : NodeId) (state : NodeState)
    → get_node (set_state g id state) j
      ≡ ite (NodeId-discrete id j) (Option.map (with_state state) (get_node g j)) (get_node g j)
unfolding set_state
get_node-set_state g id j state = get-update NodeId-discrete id j (with_state state) g.nodes

pub lookup-record_expansion :
    (g : CallGraph) (id j : NodeId) (exp : Expansion)
    → (callers_of (record_expansion g id exp) j
        ≡ ite (NodeId-discrete id j) (some exp.callers) (callers_of g j))
      × (callees_of (record_expansion g id exp) j
          ≡ ite (NodeId-discrete id j) (some exp.callees) (callees_of g j))
      × (get_node (record_expansion g id exp) j
          ≡ ite
              (NodeId-discrete id j)
              (Option.map (with_state expanded) (get_node g j))
              (get_node g j))
unfolding record_expansion
lookup-record_expansion g id j exp = (
  get-insert NodeId-discrete id j exp.callers g.callers,
  get-insert NodeId-discrete id j exp.callees g.callees,
  get-update NodeId-discrete id j (with_state expanded) g.nodes,
)
