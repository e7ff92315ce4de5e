-- ===== src/Graph/Repr.antt =====
-- The JSON mirror of the call graph.
use lspgraph.Base.{none, some, List, [], ◌∷◌, map, ◌≡◌, refl, arith, sym, ◌∙◌, if_pos, if_neg}
use lspgraph.Base.Map.{get, Distinct, extend, get-extend}
use lspgraph.Graph.{
  NodeId, NodeId-discrete, Node, CallGraph, get_node, callers_of, callees_of, into_repr, from_repr,
}
use lspgraph.Graph.WellFormed.{IsWellFormed, IsConsistent}

-- Collecting the entries of a map with distinct keys gives a map with the same lookups.
get-collect :
    {V : Type 0} (l : List (NodeId × V)) (j : NodeId)
    → Distinct NodeId-discrete l
    → get NodeId-discrete j (extend NodeId-discrete [] l) ≡ get NodeId-discrete j l
unfolding get
get-collect l j d = ground (arith, get-extend NodeId-discrete j [] l d)

none-ne-some : {A : Type 0} {a : A} → none ≡ some a → ⊥
none-ne-some e = cc

-- Where each node stands under its own id, keying the nodes by their ids gives the entries back.
rekey :
    (l : List (NodeId × Node))
    → Distinct NodeId-discrete l
    → ((j : NodeId) (n : Node) → get NodeId-discrete j l ≡ some n → n.id ≡ j)
    → map (λ n. (n.id, n)) (map (λ e. e.1) l) ≡ l
unfolding get
rekey [] d named = refl
rekey ((k, n) ∷ l) d named =
    let tail = λ (j : NodeId) (m : Node) (e : get NodeId-discrete j l ≡ some m).
      elim_tail j m e (NodeId-discrete k j) in
    let e : n.id ≡ k = named k n (if_pos (NodeId-discrete k k) refl _ _) in
    λ i. (e i, n) ∷ rekey l d.1 tail i
  where
    elim_tail : (j : NodeId) (m : Node) → get NodeId-discrete j l ≡ some m → Dec (k ≡ j) → m.id ≡ j
    elim_tail j m e (yes p) = absurd (none-ne-some (sym d.0 ∙ (rw (← p) at e)))
    elim_tail j m e (no p) = named j m (if_neg (NodeId-discrete k j) p _ _ ∙ e)

named :
    (g : CallGraph) → IsConsistent g → (j : NodeId) (n : Node) → get_node g j ≡ some n → n.id ≡ j
named g c j n e = (rw e at (c j)).0

-- A well-formed graph that goes through the mirror and back answers every lookup as before.
pub from_repr-into_repr :
    (g : CallGraph) (j : NodeId)
    → IsWellFormed g
    → (get_node (from_repr (into_repr g)) j ≡ get_node g j)
      × (callers_of (from_repr (into_repr g)) j ≡ callers_of g j)
      × (callees_of (from_repr (into_repr g)) j ≡ callees_of g j)
unfolding from_repr into_repr
from_repr-into_repr g j w = (
  rw (rekey g.nodes w.distinct_nodes (named g w.consistent))
      (get-collect g.nodes j w.distinct_nodes),
  get-collect g.callers j w.distinct_callers,
  get-collect g.callees j w.distinct_callees,
)
