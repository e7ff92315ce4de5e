-- ===== src/Graph/WellFormed.antt =====
-- The invariant of the call graph, and that every operation keeps it.
use mathlib.Core.Option
use lspgraph.Base.{
  Option, none, some, List, [], ◌∷◌, Text, ◌≡◌, refl, ◌≢◌, ite, arith, Bool, true, false,
  if◌then◌else◌, ap, if_pos, if_neg, subst, Bool-cases, inl, inr,
}
use lspgraph.Base.Map.{
  Distinct, remove, insert-Distinct, update-Distinct, remove-Distinct, map_values-Distinct,
}
use lspgraph.Graph.{
  NodeId, NodeId-discrete, Node, NodeState, expanded, Expansion, CallGraph, new, get_node,
  callers_of, callees_of, in_file, refresh, upsert, with_state, set_state, record_expansion,
  nodes_in_file, remove_all, drop_file, remove_file,
}
use lspgraph.Graph.Lookup.{merged, get_node-upsert, get_node-set_state, lookup-record_expansion}
use lspgraph.Graph.Invalidation.{EdgesOwned, lookup-remove_file}

-- What the three maps may hold under one id: a node stands under its own id, only a node has
-- edges, and an expanded node has both edge lists.
abbrev pub Consistent : NodeId → Option Node → Option (List NodeId) → Option (List NodeId) → Type 0
Consistent j none callers callees = (callers ≡ none) × (callees ≡ none)
Consistent j (some n) callers callees =
    (n.id ≡ j) × (n.state ≡ expanded → (callers ≢ none) × (callees ≢ none))

abbrev pub IsConsistent : CallGraph → Type 0
IsConsistent g = (j : NodeId) → Consistent j (get_node g j) (callers_of g j) (callees_of g j)

-- Every id is consistent, and no id stands twice in a map.
pub record IsWellFormed (g : CallGraph) : Type 0 where
  pub consistent : IsConsistent g
  pub distinct_nodes : Distinct NodeId-discrete g.nodes
  pub distinct_callers : Distinct NodeId-discrete g.callers
  pub distinct_callees : Distinct NodeId-discrete g.callees

pub EdgesOwned-IsConsistent : (g : CallGraph) → IsConsistent g → EdgesOwned g
EdgesOwned-IsConsistent g c = record {
  callers_owned = λ j e. (rw e at (c j)).0;
  callees_owned = λ j e. (rw e at (c j)).1;
}

pub new-IsWellFormed : IsWellFormed new
unfolding lspgraph.Base.Map.get
new-IsWellFormed = record {
  consistent = λ j. (refl, refl);
  distinct_nodes = tt;
  distinct_callers = tt;
  distinct_callees = tt;
}

merged-Consistent :
    (node : Node) (o : Option Node) (callers callees : Option (List NodeId))
    → node.state ≢ expanded
    → Consistent node.id o callers callees
    → Consistent node.id (some (merged node o)) callers callees
unfolding refresh
merged-Consistent node none callers callees fresh c = (refl, λ x. absurd (fresh x))
merged-Consistent node (some n) callers callees fresh c = c

with_state-Consistent :
    (j : NodeId) (state : NodeState) (o : Option Node) (callers callees : Option (List NodeId))
    → state ≢ expanded
    → Consistent j o callers callees
    → Consistent j (Option.map (with_state state) o) callers callees
unfolding with_state
with_state-Consistent j state none callers callees fresh c = c
with_state-Consistent j state (some n) callers callees fresh c = (c.0, λ x. absurd (fresh x))

expanded-Consistent :
    (j : NodeId) (o : Option Node) (callers callees : Option (List NodeId)) (exp : Expansion)
    → o ≢ none
    → Consistent j o callers callees
    → Consistent j (Option.map (with_state expanded) o) (some exp.callers) (some exp.callees)
unfolding with_state
expanded-Consistent j none callers callees exp there c = absurd (there refl)
expanded-Consistent j (some n) callers callees exp there c = (c.0, λ x. (λ e. cc, λ e. cc))

drop_file-Consistent :
    (j : NodeId) (uri : Text) (o : Option Node) (callers callees : Option (List NodeId))
    → Consistent j o callers callees
    → Consistent j o (Option.map (drop_file uri) callers) (Option.map (drop_file uri) callees)
drop_file-Consistent j uri none callers callees c = ground arith
drop_file-Consistent j uri (some n) none callees c = (c.0, λ x. absurd ((c.1 x).0 refl))
drop_file-Consistent j uri (some n) (some a) none c = (c.0, λ x. absurd ((c.1 x).1 refl))
drop_file-Consistent j uri (some n) (some a) (some b) c = (c.0, λ x. (λ e. cc, λ e. cc))

module _ (g : CallGraph) (c : IsConsistent g) where
  upsert-IsConsistent : (node : Node) → node.state ≢ expanded → IsConsistent (upsert g node)
  upsert-IsConsistent node fresh j =
      let u = get_node-upsert g node j in
      rw (u.0, u.1, u.2)
        (elim (NodeId-discrete node.id j) [
          | yes p ↦ rw (if_pos _ p) (
              subst
                (λ k.
                  Consistent k (some (merged node (get_node g node.id))) (callers_of g k)
                    (callees_of g k))
                p (merged-Consistent node _ _ _ fresh (c node.id)))
          | no p ↦ rw (if_neg _ p) (c j)
        ])

  set_state-IsConsistent :
      (id : NodeId) (state : NodeState) → state ≢ expanded → IsConsistent (set_state g id state)
  unfolding set_state
  set_state-IsConsistent id state fresh j =
      rw (get_node-set_state g id j state) (elim (NodeId-discrete id j) [
        | yes p ↦ rw (if_pos _ p) (with_state-Consistent j state _ _ _ fresh (c j))
        | no p ↦ rw (if_neg _ p) (c j)
      ])

  record_expansion-IsConsistent :
      (id : NodeId) (exp : Expansion)
      → get_node g id ≢ none
      → IsConsistent (record_expansion g id exp)
  record_expansion-IsConsistent id exp there j =
      let l = lookup-record_expansion g id j exp in
      rw (l.0, l.1, l.2)
        (elim (NodeId-discrete id j) [
          | yes p ↦
              rw (if_pos _ p, if_pos _ p, if_pos _ p)
                (expanded-Consistent j _ _ _ exp (rw p at there) (c j))
          | no p ↦ rw (if_neg _ p, if_neg _ p, if_neg _ p) (c j)
        ])

  remove_file-IsConsistent : (uri : Text) → IsConsistent (remove_file g uri)
  remove_file-IsConsistent uri j =
      let l = lookup-remove_file g uri j (EdgesOwned-IsConsistent g c) in
      rw (l.0, l.1, l.2)
        (elim (Bool-cases (in_file uri j)) [
          | inl e ↦ rw e (refl, refl)
          | inr e ↦ rw e (drop_file-Consistent j uri _ _ _ (c j))
        ])

remove_all-Distinct :
    {V : Type 0} (ids : List NodeId) (m : List (NodeId × V))
    → Distinct NodeId-discrete m
    → Distinct NodeId-discrete (remove_all ids m)
unfolding remove_all
remove_all-Distinct [] m d = d
remove_all-Distinct (id ∷ ids) m d =
    remove_all-Distinct ids (remove NodeId-discrete id m) (remove-Distinct NodeId-discrete id m d)

module _ (g : CallGraph) (w : IsWellFormed g) where
  upsert-Distinct : (node : Node) → Distinct NodeId-discrete (upsert g node).nodes
  unfolding upsert
  upsert-Distinct node = ground (
    arith,
    w.distinct_nodes,
    insert-Distinct NodeId-discrete node.id node g.nodes,
    update-Distinct NodeId-discrete node.id (refresh node) g.nodes,
  )

  -- A node that is not marked as expanded may be upserted.
  pub upsert-IsWellFormed : (node : Node) → node.state ≢ expanded → IsWellFormed (upsert g node)
  upsert-IsWellFormed node fresh =
      let u = get_node-upsert g node node.id in
      record {
        consistent = upsert-IsConsistent g w.consistent node fresh;
        distinct_nodes = upsert-Distinct node;
        distinct_callers = rw u.1 w.distinct_callers;
        distinct_callees = rw u.2 w.distinct_callees;
      }

  -- Any state but the expanded one may be set.
  pub set_state-IsWellFormed :
      (id : NodeId) (state : NodeState) → state ≢ expanded → IsWellFormed (set_state g id state)
  unfolding set_state
  set_state-IsWellFormed id state fresh = record {
    consistent = set_state-IsConsistent g w.consistent id state fresh;
    distinct_nodes = update-Distinct NodeId-discrete id (with_state state) g.nodes w.distinct_nodes;
    distinct_callers = w.distinct_callers;
    distinct_callees = w.distinct_callees;
  }

  -- Recording an expansion for a node of a well-formed graph leaves the graph well formed.
  pub record_expansion-IsWellFormed :
      (id : NodeId) (exp : Expansion)
      → get_node g id ≢ none
      → IsWellFormed (record_expansion g id exp)
  unfolding record_expansion
  record_expansion-IsWellFormed id exp there = record {
    consistent = record_expansion-IsConsistent g w.consistent id exp there;
    distinct_nodes =
        update-Distinct NodeId-discrete id (with_state expanded) g.nodes w.distinct_nodes;
    distinct_callers = insert-Distinct NodeId-discrete id exp.callers g.callers w.distinct_callers;
    distinct_callees = insert-Distinct NodeId-discrete id exp.callees g.callees w.distinct_callees;
  }

  -- Removing any file from a well-formed graph leaves the graph well formed.
  pub remove_file-IsWellFormed : (uri : Text) → IsWellFormed (remove_file g uri)
  unfolding remove_file
  remove_file-IsWellFormed uri =
      let ids = nodes_in_file g uri in
      record {
        consistent = remove_file-IsConsistent g w.consistent uri;
        distinct_nodes = remove_all-Distinct ids g.nodes w.distinct_nodes;
        distinct_callers =
            map_values-Distinct NodeId-discrete (drop_file uri) _
              (remove_all-Distinct ids g.callers w.distinct_callers);
        distinct_callees =
            map_values-Distinct NodeId-discrete (drop_file uri) _
              (remove_all-Distinct ids g.callees w.distinct_callees);
      }
