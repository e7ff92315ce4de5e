-- ===== src/Engine/Session.antt =====
-- The engine of crates/lspgraph-core/src/engine.rs in use: its operations in any order.
use lspgraph.Base.{List, [], ◌∷◌, Text}
use lspgraph.Graph.{NodeId}
use lspgraph.Symbols.{NamedCallable}
use lspgraph.Engine.{Engine, LspCalls, seed, expand, invalidate_file}
use lspgraph.Engine.Valid.{IsValid, seed-IsValid, expand-IsValid, invalidate_file-IsValid}

-- The calls of an engine that change it.
pub data Use : Type 0 where
  seeds : NamedCallable → Use
  expands : NodeId → Use
  invalidates : Text → Use

module _ {S : Type 0} (calls : LspCalls S) where
  abbrev pub after_use : Engine S → Use → Engine S
  after_use e (seeds cand) = (seed calls e cand).0
  after_use e (expands id) = (expand calls e id).0
  after_use e (invalidates uri) = invalidate_file e uri

  abbrev pub after_uses : Engine S → List Use → Engine S
  after_uses e [] = e
  after_uses e (u ∷ us) = after_uses (after_use e u) us

  after_use-IsValid : (e : Engine S) (u : Use) → IsValid e → IsValid (after_use e u)
  after_use-IsValid e (seeds cand) v = seed-IsValid calls e cand v
  after_use-IsValid e (expands id) v = expand-IsValid calls e id v
  after_use-IsValid e (invalidates uri) v = invalidate_file-IsValid e uri v

  -- A valid engine stays valid, whatever symbols are seeded, ids expanded and files invalidated, in
  -- any order, and whatever the server answers: its graph stays well formed, its edges lead to nodes
  -- of the graph, and its items fit their nodes.
  pub after_uses-IsValid : (e : Engine S) (us : List Use) → IsValid e → IsValid (after_uses e us)
  after_uses-IsValid e [] v = v
  after_uses-IsValid e (u ∷ us) v = after_uses-IsValid (after_use e u) us (after_use-IsValid e u v)
