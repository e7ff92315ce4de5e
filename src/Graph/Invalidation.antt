-- ===== src/Graph/Invalidation.antt =====
-- `remove_file`: what an edited file takes out of the graph.
use mathlib.Core.Option
use lspgraph.Base.{
  subst, Bool, true, false, ◌&&◌, Option, none, some, List, [], ◌∷◌, Text, ◌≡◌, ◌⊎◌, refl, sym, ◌≢◌,
  ◌∙◌, ite, arith, retain, if◌then◌else◌, inl, inr, All,
}
use lspgraph.Base.Map.{get, keys, remove, get-remove, get-map_values}
use lspgraph.Graph.{
  NodeId, NodeId-discrete, CallGraph, get_node, callers_of, callees_of, in_file, nodes_in_file,
  remove_all, drop_file, remove_file,
}

abbrev pub is_some : {A : Type 0} → Option A → Bool
is_some none = false
is_some (some a) = true

-- Whether the list holds the id.
contains : List NodeId → NodeId → Bool
contains [] j = false
contains (id ∷ ids) j = ite (NodeId-discrete id j) true (contains ids j)

contains-keys :
    {V : Type 0} (m : List (NodeId × V)) (j : NodeId)
    → contains (keys m) j ≡ is_some (get NodeId-discrete j m)
unfolding contains get
contains-keys [] j = refl
contains-keys ((id, v) ∷ m) j = ground (arith, contains-keys m j)

contains-retain :
    (p : NodeId → Bool) (ids : List NodeId) (j : NodeId)
    → contains (retain p ids) j ≡ (p j && contains ids j)
unfolding contains retain
contains-retain p [] j = ground arith
contains-retain p (id ∷ ids) j = ground (arith, contains-retain p ids j)

get-remove_all :
    {V : Type 0} (ids : List NodeId) (m : List (NodeId × V)) (j : NodeId)
    → get NodeId-discrete j (remove_all ids m)
      ≡ (if contains ids j then none else get NodeId-discrete j m)
unfolding contains remove_all
get-remove_all [] m j = refl
get-remove_all (id ∷ ids) m j =
    ground
      (arith, get-remove_all ids (remove NodeId-discrete id m) j, get-remove NodeId-discrete id j m)

-- The ids that are removed: those of the nodes of the file.
doomed_iff :
    (g : CallGraph) (uri : Text) (j : NodeId)
    → contains (nodes_in_file g uri) j ≡ (in_file uri j && is_some (get_node g j))
unfolding nodes_in_file
doomed_iff g uri j = rw (contains-retain, contains-keys)

-- A lookup after the removal, for a map whose keys in the file all have a node.
pub get-doomed :
    {V : Type 0} (g : CallGraph) (uri : Text) (m : List (NodeId × V)) (j : NodeId)
    → (get_node g j ≡ none → get NodeId-discrete j m ≡ none)
    → get NodeId-discrete j (remove_all (nodes_in_file g uri) m)
      ≡ (if in_file uri j then none else get NodeId-discrete j m)
get-doomed g uri m j inside =
    ground (arith, get-remove_all (nodes_in_file g uri) m j, doomed_iff g uri j, inside)

-- The same for any map: a key in the file stays where it has no node.
pub get-doomed_node :
    {V : Type 0} (g : CallGraph) (uri : Text) (m : List (NodeId × V)) (j : NodeId)
    → get NodeId-discrete j (remove_all (nodes_in_file g uri) m)
      ≡ (if in_file uri j && is_some (get_node g j) then none else get NodeId-discrete j m)
get-doomed_node g uri m j = rw (get-remove_all (nodes_in_file g uri) m j, doomed_iff g uri j)

-- Every recorded expansion belongs to a node of the graph.
pub record EdgesOwned (g : CallGraph) : Type 0 where
  pub callers_owned : (j : NodeId) → get_node g j ≡ none → callers_of g j ≡ none
  pub callees_owned : (j : NodeId) → get_node g j ≡ none → callees_of g j ≡ none

pub lookup-remove_file :
    (g : CallGraph) (uri : Text) (j : NodeId)
    → EdgesOwned g
    → (get_node (remove_file g uri) j ≡ (if in_file uri j then none else get_node g j))
      × (callers_of (remove_file g uri) j
          ≡ (if in_file uri j then none else Option.map (drop_file uri) (callers_of g j)))
      × (callees_of (remove_file g uri) j
          ≡ (if in_file uri j then none else Option.map (drop_file uri) (callees_of g j)))
unfolding remove_file
lookup-remove_file g uri j w = (
  get-doomed g uri g.nodes j (λ e. e),
  ground (
    arith,
    get-doomed g uri g.callers j (w.callers_owned j),
    get-map_values NodeId-discrete (drop_file uri) j (remove_all (nodes_in_file g uri) g.callers),
  ),
  ground (
    arith,
    get-doomed g uri g.callees j (w.callees_owned j),
    get-map_values NodeId-discrete (drop_file uri) j (remove_all (nodes_in_file g uri) g.callees),
  ),
)

pub drop_file-All : (uri : Text) (ids : List NodeId) → All (λ n. n.uri ≢ uri) (drop_file uri ids)
unfolding drop_file retain
drop_file-All uri [] = tt
drop_file-All uri (id ∷ ids) = ground (arith, drop_file-All uri ids)

drop_file-some :
    (uri : Text) (o : Option (List NodeId)) (ids : List NodeId)
    → Option.map (drop_file uri) o ≡ some ids
    → All (λ n. n.uri ≢ uri) ids
drop_file-some uri none ids e = cc
drop_file-some uri (some l) ids e =
    let e' : drop_file uri l ≡ ids = cc in subst (All (λ n. n.uri ≢ uri)) e' (drop_file-All uri l)

-- No surviving edge list points into a removed file, whatever the graph was.
pub remove_file-no_dangling :
    (g : CallGraph) (uri : Text) (j : NodeId) (ids : List NodeId)
    → (callers_of (remove_file g uri) j ≡ some ids) ⊎ (callees_of (remove_file g uri) j ≡ some ids)
    → All (λ n. n.uri ≢ uri) ids
unfolding remove_file
remove_file-no_dangling g uri j ids (inl e) =
    drop_file-some uri _ ids (sym (get-map_values NodeId-discrete (drop_file uri) j _) ∙ e)
remove_file-no_dangling g uri j ids (inr e) =
    drop_file-some uri _ ids (sym (get-map_values NodeId-discrete (drop_file uri) j _) ∙ e)
