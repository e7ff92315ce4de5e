-- ===== src/Engine/Seeded.antt =====
-- What `seed` of crates/lspgraph-core/src/engine.rs leaves behind, by the server's answer.
use lspgraph.Base.{Option, none, some, List, [], ◌∷◌, ◌≡◌, ◌≢◌}
use lspgraph.Base.Map.{get}
use lspgraph.Error.{content_modified, Result, ok, err}
use lspgraph.Graph.{
  CallGraph, CallHierarchyItem, NodeId, NodeId-discrete, from_item, get_node,
  transient_content_modified, no_call_hierarchy_item, Node,
}
use lspgraph.Symbols.{NamedCallable}
use lspgraph.Engine.{Engine, LspCalls, interned, unresolved_node}
use lspgraph.Graph.Lookup.{merged}

-- A graph to which one node was added: a node that was there before keeps its state, and nothing else
-- changes.
pub record Adds (node : Node) (g g' : CallGraph) : Type 0 where
  pub there : get_node g' node.id ≡ some (merged node (get_node g node.id))
  pub others : (j : NodeId) → node.id ≢ j → get_node g' j ≡ get_node g j
  pub callers : g'.callers ≡ g.callers
  pub callees : g'.callees ≡ g.callees

module _ {S : Type 0} (calls : LspCalls S) where
  -- What the server's answer makes of a candidate: modified content or no item gives nothing and adds
  -- an unresolved node with the reason; another error is passed on and changes nothing; and of the
  -- items the first one gives its id, with its node and with the item under it.
  abbrev pub IsRecorded :
      Engine S
      → NamedCallable
      → Result (List CallHierarchyItem)
      → Engine S × Result (Option NodeId)
      → Type 0
  IsRecorded e cand (err (content_modified m)) (e', r) =
      (r ≡ ok none)
      × Adds (unresolved_node cand transient_content_modified) e.graph e'.graph
      × (e'.items ≡ e.items)
  IsRecorded e cand (err x) (e', r) = (r ≡ err x) × (e'.graph ≡ e.graph) × (e'.items ≡ e.items)
  IsRecorded e cand (ok []) (e', r) =
      (r ≡ ok none)
      × Adds (unresolved_node cand no_call_hierarchy_item) e.graph e'.graph
      × (e'.items ≡ e.items)
  IsRecorded e cand (ok (item ∷ rest)) (e', r) =
      (r ≡ ok (some (from_item item)))
      × Adds (interned calls item) e.graph e'.graph
      × (get NodeId-discrete (from_item item) e'.items ≡ some item)
