-- ===== src/Graph/Closed.antt =====
-- Edges lead to nodes of the graph, and every operation keeps it so.
use mathlib.Core.Option
use lspgraph.Base.{
  Option, none, some, List, [], ◌∷◌, Text, ◌≢◌, inl, inr, arith, All, ite, if_pos, if_neg,
  Bool-cases, retain,
}
use lspgraph.Graph.{
  NodeId, NodeId-discrete, Node, Expansion, CallGraph, get_node, callers_of, callees_of, in_file,
  upsert, record_expansion, drop_file, remove_file,
}
use lspgraph.Graph.Lookup.{get_node-upsert, lookup-record_expansion}
use lspgraph.Graph.Invalidation.{EdgesOwned, lookup-remove_file}

abbrev pub IsKnown : CallGraph → NodeId → Type 0
IsKnown g id = get_node g id ≢ none

-- What an edge list, if there is one, holds.
abbrev pub Holds : (NodeId → Type 0) → Option (List NodeId) → Type 0
Holds P none = Unit
Holds P (some ids) = All P ids

-- Every edge leads to a node of the graph.
abbrev pub IsClosed : CallGraph → Type 0
IsClosed g = (j : NodeId) → Holds (IsKnown g) (callers_of g j) × Holds (IsKnown g) (callees_of g j)

pub All-mono :
    (P Q : NodeId → Type 0)
    → ((j : NodeId) → P j → Q j)
    → (ids : List NodeId) → All P ids
    → All Q ids
All-mono P Q f [] a = tt
All-mono P Q f (id ∷ ids) (p, a) = (f id p, All-mono P Q f ids a)

Holds-mono :
    (P Q : NodeId → Type 0)
    → ((j : NodeId) → P j → Q j)
    → (o : Option (List NodeId)) → Holds P o
    → Holds Q o
Holds-mono P Q f none h = tt
Holds-mono P Q f (some ids) h = All-mono P Q f ids h

pub upsert-IsKnown :
    (g : CallGraph) (node : Node) (j : NodeId) → IsKnown g j → IsKnown (upsert g node) j
upsert-IsKnown g node j k = ground (arith, get_node-upsert g node j)

pub upsert-IsKnown_self : (g : CallGraph) (node : Node) → IsKnown (upsert g node) node.id
upsert-IsKnown_self g node = ground (arith, get_node-upsert g node node.id)

pub record_expansion-IsKnown :
    (g : CallGraph) (id : NodeId) (exp : Expansion) (j : NodeId)
    → IsKnown g j
    → IsKnown (record_expansion g id exp) j
record_expansion-IsKnown g id exp j k = ground (arith, lookup-record_expansion g id j exp)

pub upsert-IsClosed : (g : CallGraph) (node : Node) → IsClosed g → IsClosed (upsert g node)
upsert-IsClosed g node c j =
    let u = get_node-upsert g node j in
    let up = upsert-IsKnown g node in
    rw (u.1, u.2) (Holds-mono _ _ up _ (c j).0, Holds-mono _ _ up _ (c j).1)

Holds-ite :
    (P : NodeId → Type 0) (id j : NodeId) (ids : List NodeId) (o : Option (List NodeId))
    → All P ids
    → Holds P o
    → Holds P (ite (NodeId-discrete id j) (some ids) o)
Holds-ite P id j ids o a h = elim (NodeId-discrete id j) [
  | yes p ↦ rw (if_pos _ p) a
  | no p ↦ rw (if_neg _ p) h
]

pub record_expansion-IsClosed :
    (g : CallGraph) (id : NodeId) (exp : Expansion)
    → All (IsKnown g) exp.callers
    → All (IsKnown g) exp.callees
    → IsClosed g
    → IsClosed (record_expansion g id exp)
record_expansion-IsClosed g id exp to from c j =
    let l = lookup-record_expansion g id j exp in
    let up = record_expansion-IsKnown g id exp in
    rw (l.0, l.1)
      (
        Holds-mono (IsKnown g) _ up _ (Holds-ite (IsKnown g) id j exp.callers _ to (c j).0),
        Holds-mono (IsKnown g) _ up _ (Holds-ite (IsKnown g) id j exp.callees _ from (c j).1),
      )

module _ (g : CallGraph) (w : EdgesOwned g) (uri : Text) where
  drop_file-IsKnown :
      (ids : List NodeId)
      → All (IsKnown g) ids
      → All (IsKnown (remove_file g uri)) (drop_file uri ids)
  unfolding drop_file retain
  drop_file-IsKnown [] a = tt
  drop_file-IsKnown (id ∷ ids) (k, a) =
      ground (arith, drop_file-IsKnown ids a, lookup-remove_file g uri id w)

  drop_file-Holds :
      (o : Option (List NodeId))
      → Holds (IsKnown g) o
      → Holds (IsKnown (remove_file g uri)) (Option.map (drop_file uri) o)
  drop_file-Holds none h = tt
  drop_file-Holds (some ids) h = drop_file-IsKnown ids h

  pub remove_file-IsClosed : IsClosed g → IsClosed (remove_file g uri)
  remove_file-IsClosed c j =
      let l = lookup-remove_file g uri j w in
      rw (l.1, l.2)
        (elim (Bool-cases (in_file uri j)) [
          | inl e ↦ rw e (tt, tt)
          | inr e ↦ rw e (drop_file-Holds _ (c j).0, drop_file-Holds _ (c j).1)
        ])
