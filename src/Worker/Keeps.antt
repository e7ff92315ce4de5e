-- ===== src/Worker/Keeps.antt =====
-- What the engine's calls keep, the worker keeps.
use lspgraph.Base.{List, [], ◌∷◌, Text}
use lspgraph.Graph.{NodeId}
use lspgraph.Symbols.{SymbolMatch}
use lspgraph.Protocol.{Request}
use lspgraph.Worker.{EngineOps, serve}

module _ {S : Type 0} (ops : EngineOps S) (Keeps : S → Type 0) where
  -- Every call that the worker's loop makes keeps the property.
  abbrev pub OpsKeep : Type 0
  OpsKeep =
      ((s : S) (query : Text) → Keeps s → Keeps (ops.search s query).0)
      × ((s : S) (m : SymbolMatch) → Keeps s → Keeps (ops.seed s m).0)
      × ((s : S) (id : NodeId) → Keeps s → Keeps (ops.expand s id).0)

  pub serve-Keeps : (s : S) (reqs : List Request) → OpsKeep → Keeps s → Keeps (serve ops s reqs).0
  unfolding serve
  serve-Keeps s [] keep h = h
  serve-Keeps s (Request.shutdown ∷ rs) keep h = h
  serve-Keeps s (Request.restart ∷ rs) keep h = h
  serve-Keeps s (Request.search q ∷ rs) keep h =
      serve-Keeps (ops.search s q).0 rs keep (keep.0 s q h)
  serve-Keeps s (Request.seed m ∷ rs) keep h = serve-Keeps (ops.seed s m).0 rs keep (keep.1 s m h)
  serve-Keeps s (Request.expand id ∷ rs) keep h =
      serve-Keeps (ops.expand s id).0 rs keep (keep.2 s id h)
