-- ===== src/Graph.antt =====
-- crates/lspgraph-core/src/graph.rs: identity, nodes, edges, and per-file invalidation.
pub mod Lookup
pub mod Invalidation
pub mod WellFormed
pub mod Closed
pub mod Repr
pub mod View
use lspgraph.Base.{
  ℕ, Bool, not, Option, none, some, List, [], ◌∷◌, map, Text, Text-discrete, codes, ℕ_discrete,
  retain, length, is_empty, holds,
}
use lspgraph.Base.Map.{get, insert, remove, update, map_values, extend, keys}

pub record Position : Type 0 where
  pub line : ℕ
  pub character : ℕ

-- `lsp_types::CallHierarchyItem`: the fields that the code reads, and the others as one text.
pub record CallHierarchyItem : Type 0 where
  pub name : Text
  pub kind : ℕ
  pub detail : Option Text
  pub uri : Text
  pub selection_start : Position
  pub others : Text

pub record NodeId : Type 0 where
  pub uri : Text
  pub line : ℕ
  pub character : ℕ
  pub name : Text

unfoldable pub NodeId-discrete : Discrete NodeId
unfolding Text-discrete ℕ_discrete
NodeId-discrete = hlevel (Text-discrete, ℕ_discrete)

-- `NodeId::from_item`.
unfoldable pub from_item : CallHierarchyItem → NodeId
from_item item = record {
  uri = item.uri;
  line = item.selection_start.line;
  character = item.selection_start.character;
  name = item.name;
}

pub data UnresolvedReason : Type 0 where
  no_call_hierarchy_item transient_content_modified : UnresolvedReason

unfoldable pub reason_text : UnresolvedReason → Text
reason_text no_call_hierarchy_item =
    codes "no call hierarchy: likely an overload signature or an anonymous function"
reason_text transient_content_modified =
    codes "server repeatedly reported content modified; the symbol may resolve on a later attempt"

pub data NodeState : Type 0 where
  unexpanded expanded : NodeState
  unresolved : UnresolvedReason → NodeState

pub record Node : Type 0 where
  pub id : NodeId
  pub kind_name : Text
  pub detail : Option Text
  pub state : NodeState

pub record Expansion : Type 0 where
  pub callers : List NodeId
  pub callees : List NodeId

pub record CallGraph : Type 0 where
  pub nodes : List (NodeId × Node)
  pub callers : List (NodeId × List NodeId)
  pub callees : List (NodeId × List NodeId)

abbrev pub new : CallGraph
new = record { nodes = []; callers = []; callees = [] }

unfoldable pub len : CallGraph → ℕ
len g = length g.nodes

unfoldable pub has_no_nodes : CallGraph → Bool
has_no_nodes g = is_empty g.nodes

-- `CallGraph::get`.
abbrev pub get_node : CallGraph → NodeId → Option Node
get_node g id = get NodeId-discrete id g.nodes

-- What `upsert` writes over a node that is there: the state is kept.
unfoldable pub refresh : Node → Node → Node
refresh node existing = record existing { kind_name = node.kind_name; detail = node.detail }

unfoldable pub upsert : CallGraph → Node → CallGraph
unfolding refresh
upsert g node = elim (get_node g node.id) [
  | some existing ↦ record g { nodes = update NodeId-discrete node.id (refresh node) g.nodes }
  | none ↦ record g { nodes = insert NodeId-discrete node.id node g.nodes }
]

unfoldable pub with_state : NodeState → Node → Node
with_state state n = record n { state = state }

unfoldable pub set_state : CallGraph → NodeId → NodeState → CallGraph
unfolding with_state
set_state g id state = record g { nodes = update NodeId-discrete id (with_state state) g.nodes }

unfoldable pub record_expansion : CallGraph → NodeId → Expansion → CallGraph
unfolding set_state
record_expansion g id exp =
    set_state
      (record g {
        callers = insert NodeId-discrete id exp.callers g.callers;
        callees = insert NodeId-discrete id exp.callees g.callees;
      })
      id expanded

abbrev pub callers_of : CallGraph → NodeId → Option (List NodeId)
callers_of g id = get NodeId-discrete id g.callers

abbrev pub callees_of : CallGraph → NodeId → Option (List NodeId)
callees_of g id = get NodeId-discrete id g.callees

-- `k.uri == uri`.
abbrev pub in_file : Text → NodeId → Bool
in_file uri k = holds (Text-discrete k.uri uri)

unfoldable pub nodes_in_file : CallGraph → Text → List NodeId
nodes_in_file g uri = retain (in_file uri) (keys g.nodes)

-- The loop over the doomed keys, for one of the three maps.
unfoldable pub remove_all : {V : Type 0} → List NodeId → List (NodeId × V) → List (NodeId × V)
remove_all [] m = m
remove_all (id ∷ ids) m = remove_all ids (remove NodeId-discrete id m)

-- `list.retain(|n| n.uri != uri)`.
unfoldable pub drop_file : Text → List NodeId → List NodeId
drop_file uri = retain (λ n. not (in_file uri n))

unfoldable pub remove_file : CallGraph → Text → CallGraph
unfolding drop_file remove_all nodes_in_file
remove_file g uri =
    let doomed = nodes_in_file g uri in
    record {
      nodes = remove_all doomed g.nodes;
      callers = map_values (drop_file uri) (remove_all doomed g.callers);
      callees = map_values (drop_file uri) (remove_all doomed g.callees);
    }

-- The mirror with vectors of pairs that JSON can hold. Hash order is the order of the entries.
pub record CallGraphRepr : Type 0 where
  pub nodes : List Node
  pub callers : List (NodeId × List NodeId)
  pub callees : List (NodeId × List NodeId)

unfoldable pub into_repr : CallGraph → CallGraphRepr
into_repr g = record { nodes = map (λ e. e.1) g.nodes; callers = g.callers; callees = g.callees }

unfoldable pub from_repr : CallGraphRepr → CallGraph
from_repr r = record {
  nodes = extend NodeId-discrete [] (map (λ n. (n.id, n)) r.nodes);
  callers = extend NodeId-discrete [] r.callers;
  callees = extend NodeId-discrete [] r.callees;
}
