-- ===== src/Protocol.antt =====
-- crates/lspgraph-tui/src/protocol.rs: what the interface and the worker say to one another.
use lspgraph.Base.{Bool, Option, List, Text}
use lspgraph.Graph.{NodeId, Node}
use lspgraph.Symbols.{SymbolMatch}

pub data Request : Type 0 where
  search : Text → Request
  seed : SymbolMatch → Request
  expand : NodeId → Request
  restart shutdown : Request

-- An expansion whose endpoints have been resolved to full nodes.
pub record ResolvedExpansion : Type 0 where
  pub callers : List Node
  pub callees : List Node

pub data Event : Type 0 where
  ready : Bool → Event
  matches : List SymbolMatch → Event
  seeded : Option Node → Event
  expanded : NodeId → ResolvedExpansion → Event
  failed : NodeId → Text → Event
  warning : Text → Event
  fatal : Text → Event
