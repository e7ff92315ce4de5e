-- ===== src/Engine/Forgets.antt =====
-- What `invalidate_file` of crates/lspgraph-core/src/engine.rs takes out of an engine.
use lspgraph.Base.{
  Option, none, some, List, [], Text, ◌≡◌, ◌≢◌, refl, not, true, arith, All, Bool, false,
  if◌then◌else◌,
}
use lspgraph.Base.Map.{get, get-retain_keys}
use lspgraph.Error.{ok}
use lspgraph.Graph.{NodeId, NodeId-discrete, get_node, in_file, callers_of, callees_of, drop_file}
use lspgraph.Graph.Invalidation.{lookup-remove_file, drop_file-All}
use lspgraph.Graph.WellFormed.{EdgesOwned-IsConsistent}
use lspgraph.Engine.{Engine, LspCalls, invalidate_file, expand, recorded, or_empty}
use lspgraph.Engine.Valid.{IsValid}
use mathlib.Core.Option

-- No id of the list is in the file.
abbrev pub IsOutside : Text → List NodeId → Type 0
IsOutside uri ids = All (λ n. n.uri ≢ uri) ids

dropped-IsOutside :
    (uri : Text) (inside : Bool) (o : Option (List NodeId))
    → IsOutside uri (or_empty (if inside then none else Option.map (drop_file uri) o))
dropped-IsOutside uri true o = tt
dropped-IsOutside uri false none = tt
dropped-IsOutside uri false (some ids) = drop_file-All uri ids

module _ {S : Type 0} (calls : LspCalls S) where
  -- An engine that knows nothing of an id, and in which no recorded expansion leads into a file.
  pub record Forgets (uri : Text) (id : NodeId) (e : Engine S) : Type 0 where
    pub node : get_node e.graph id ≡ none
    pub callers : callers_of e.graph id ≡ none
    pub callees : callees_of e.graph id ≡ none
    pub item : get NodeId-discrete id e.items ≡ none
    pub callers_left : (j : NodeId) → IsOutside uri (recorded e.graph j).callers
    pub callees_left : (j : NodeId) → IsOutside uri (recorded e.graph j).callees
    pub expands : expand calls e id ≡ (e, ok (record { callers = []; callees = [] }))

  -- Once a file is invalidated in a valid engine, an id of the file has no node, no edges and no item,
  -- and no edge of any other id leads into the file; so expanding the id finds nothing, asks the server
  -- nothing and changes nothing.
  pub expand-invalidate_file :
      (e : Engine S) (uri : Text) (id : NodeId)
      → IsValid e
      → id.uri ≡ uri
      → Forgets uri id (invalidate_file e uri)
  unfolding expand invalidate_file
  expand-invalidate_file e uri id v inside =
      let owned = EdgesOwned-IsConsistent e.graph v.graph_formed.consistent in
      let here : in_file uri id ≡ true = ground arith in
      let gone = lookup-remove_file e.graph uri id owned in
      let left = λ (j : NodeId). lookup-remove_file e.graph uri j owned in
      let kept = get-retain_keys NodeId-discrete (λ k. not (in_file uri k)) id e.items in
      record {
        node = rw (gone.0, here) refl;
        callers = rw (gone.1, here) refl;
        callees = rw (gone.2, here) refl;
        item = rw (kept, here) refl;
        callers_left = λ j. rw (left j).1 (dropped-IsOutside uri (in_file uri j) _);
        callees_left = λ j. rw (left j).2 (dropped-IsOutside uri (in_file uri j) _);
        expands = rw (gone.0, kept, here) refl;
      }
