-- ===== src/Graph/View.antt =====
-- The call graph of crates/lspgraph-core/src/graph.rs as its callers see it: three lookups. The order in
-- which a hash map holds its entries is forgotten.
use mathlib.Core.Option
use lspgraph.Base.{
  ◌&&◌, Option, none, some, List, [], ◌∷◌, Text, Text-discrete, ◌≡◌, refl, ◌∙◌, arith, ite,
  if◌then◌else◌, ap, retain,
}
use lspgraph.Base.Map.{get, get-map_values}
use lspgraph.Graph.{
  NodeId, NodeId-discrete, Node, NodeState, expanded, Expansion, CallGraph, get_node, callers_of,
  callees_of, in_file, nodes_in_file, remove_all, drop_file, remove_file, upsert, set_state,
  record_expansion, with_state, refresh,
}
use lspgraph.Graph.Lookup.{get_node-upsert, get_node-set_state, lookup-record_expansion}
use lspgraph.Graph.Invalidation.{is_some, get-doomed, get-doomed_node}

-- The operations that change a graph.
pub data Change : Type 0 where
  upserts : Node → Change
  sets_state : NodeId → NodeState → Change
  records : NodeId → Expansion → Change
  removes : Text → Change

abbrev pub apply : CallGraph → Change → CallGraph
apply g (upserts node) = upsert g node
apply g (sets_state id state) = set_state g id state
apply g (records id exp) = record_expansion g id exp
apply g (removes uri) = remove_file g uri

abbrev pub apply_all : CallGraph → List Change → CallGraph
apply_all g [] = g
apply_all g (c ∷ cs) = apply_all (apply g c) cs

-- What is found under each id.
pub record Lookups : Type 0 where
  pub node : NodeId → Option Node
  pub callers : NodeId → Option (List NodeId)
  pub callees : NodeId → Option (List NodeId)

abbrev pub lookups : CallGraph → Lookups
lookups g = record { node = get_node g; callers = callers_of g; callees = callees_of g }

-- The changes on lookups. A node that is seen again keeps its id and its state.
abbrev seen_again : Node → Option Node → Node
seen_again node none = node
seen_again node (some n) = record n { kind_name = node.kind_name; detail = node.detail }

abbrev in_state : NodeState → Node → Node
in_state state n = record n { state = state }

-- The ids that are not in the file.
abbrev outside : Text → List NodeId → List NodeId
outside uri [] = []
outside uri (id ∷ ids) = ite (Text-discrete id.uri uri) (outside uri ids) (id ∷ outside uri ids)

-- Another value under one id.
abbrev alter {ℓ} : {A : Type ℓ} → NodeId → (A → A) → (NodeId → A) → NodeId → A
alter id f look j = ite (NodeId-discrete id j) (f (look j)) (look j)

-- The edges that are left when a file is removed: none of its nodes, and of the others those that lead
-- elsewhere.
abbrev cut :
    Text → (NodeId → Option Node) → (NodeId → Option (List NodeId)) → NodeId → Option (List NodeId)
cut uri node look j =
    let left = Option.map (outside uri) (look j) in
    ite (Text-discrete j.uri uri) (if is_some (node j) then none else left) left

abbrev pub change : Lookups → Change → Lookups
change l (upserts node) = record l {
  node = alter node.id (λ found. some (seen_again node found)) l.node;
}
change l (sets_state id state) = record l { node = alter id (Option.map (in_state state)) l.node }
change l (records id exp) = record {
  node = alter id (Option.map (in_state expanded)) l.node;
  callers = alter id (λ found. some exp.callers) l.callers;
  callees = alter id (λ found. some exp.callees) l.callees;
}
change l (removes uri) = record {
  node = λ j. ite (Text-discrete j.uri uri) none (l.node j);
  callers = cut uri l.node l.callers;
  callees = cut uri l.node l.callees;
}

abbrev pub change_all : Lookups → List Change → Lookups
change_all l [] = l
change_all l (c ∷ cs) = change_all (change l c) cs

-- Lookups are equal where all that they find is.
same_lookups :
    (k l : Lookups)
    → ((j : NodeId) → k.node j ≡ l.node j)
    → ((j : NodeId) → k.callers j ≡ l.callers j)
    → ((j : NodeId) → k.callees j ≡ l.callees j)
    → k ≡ l
same_lookups k l p q r =
    λ i. record { node = λ j. p j i; callers = λ j. q j i; callees = λ j. r j i }

-- A lookup after a removal, in any graph.
lookup_removed :
    (g : CallGraph) (uri : Text) (j : NodeId)
    → (get_node (remove_file g uri) j ≡ (if in_file uri j then none else get_node g j))
      × (callers_of (remove_file g uri) j ≡ (
          if in_file uri j && is_some (get_node g j)
          then none
          else Option.map (drop_file uri) (callers_of g j)))
      × (callees_of (remove_file g uri) j ≡ (
          if in_file uri j && is_some (get_node g j)
          then none
          else Option.map (drop_file uri) (callees_of g j)))
unfolding remove_file
lookup_removed g uri j = (
  get-doomed g uri g.nodes j (λ e. e),
  ground (
    arith,
    get-doomed_node g uri g.callers j,
    get-map_values NodeId-discrete (drop_file uri) j (remove_all (nodes_in_file g uri) g.callers),
  ),
  ground (
    arith,
    get-doomed_node g uri g.callees j,
    get-map_values NodeId-discrete (drop_file uri) j (remove_all (nodes_in_file g uri) g.callees),
  ),
)

outside-drop_file : (uri : Text) (ids : List NodeId) → drop_file uri ids ≡ outside uri ids
unfolding drop_file retain
outside-drop_file uri [] = refl
outside-drop_file uri (id ∷ ids) = ground (arith, outside-drop_file uri ids)

-- The edges that the code leaves are those.
cut-doomed :
    (uri : Text) (g : CallGraph) (look : NodeId → Option (List NodeId)) (j : NodeId)
    → (if in_file uri j && is_some (get_node g j)
        then none
        else Option.map (drop_file uri) (look j))
      ≡ cut uri (get_node g) look j
cut-doomed uri g look j = by_found (look j)
  where
    by_found :
        (o : Option (List NodeId))
        → (if in_file uri j && is_some (get_node g j) then none else Option.map (drop_file uri) o)
          ≡ ite
              (Text-discrete j.uri uri)
              (if is_some (get_node g j) then none else Option.map (outside uri) o)
              (Option.map (outside uri) o)
    by_found none = ground arith
    by_found (some ids) = ground (arith, outside-drop_file uri ids)

seen_again-merged :
    (g : CallGraph) (node : Node) (j : NodeId)
    → get_node (upsert g node) j
      ≡ alter node.id (λ found. some (seen_again node found)) (get_node g) j
unfolding refresh
seen_again-merged g node j = ground (arith, (get_node-upsert g node j).0)

lookups-apply : (g : CallGraph) (c : Change) → lookups (apply g c) ≡ change (lookups g) c
unfolding with_state set_state
lookups-apply g (upserts node) =
    same_lookups _ _ (seen_again-merged g node)
      (λ j. ap (get NodeId-discrete j) (get_node-upsert g node j).1)
      (λ j. ap (get NodeId-discrete j) (get_node-upsert g node j).2)
lookups-apply g (sets_state id state) =
    same_lookups _ _ (λ j. get_node-set_state g id j state) (λ j. refl) (λ j. refl)
lookups-apply g (records id exp) =
    same_lookups _ _ (λ j. (lookup-record_expansion g id j exp).2)
      (λ j. (lookup-record_expansion g id j exp).0) (λ j. (lookup-record_expansion g id j exp).1)
lookups-apply g (removes uri) =
    same_lookups _ _ (λ j. ground (arith, (lookup_removed g uri j).0))
      (λ j. (lookup_removed g uri j).1 ∙ cut-doomed uri g (callers_of g) j)
      (λ j. (lookup_removed g uri j).2 ∙ cut-doomed uri g (callees_of g) j)

-- Whatever changes are made to a graph, in any order, its lookups are those that the same changes make
-- of three functions: a node that is seen again keeps its state, a state is set where there is a node,
-- an expansion replaces both edge lists of its id alone, and the removal of a file takes out its nodes
-- with their edges and every edge into it.
pub lookups-apply_all :
    (g : CallGraph) (cs : List Change) → lookups (apply_all g cs) ≡ change_all (lookups g) cs
lookups-apply_all g [] = refl
lookups-apply_all g (c ∷ cs) =
    lookups-apply_all (apply g c) cs ∙ ap (λ l. change_all l cs) (lookups-apply g c)
