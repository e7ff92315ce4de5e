-- ===== src/Worker/Core.antt =====
-- The worker over the real engine: the engine stays valid, and every endpoint that it sends is the
-- graph's own node.
use lspgraph.Base.{List, [], ◌∷◌, map, Text, ◌≡◌, refl, Option-cases, inl, inr}
use lspgraph.Error.{Result}
use lspgraph.Graph.{Expansion, NodeId, get_node}
use lspgraph.Symbols.{SymbolMatch, to_named_callable}
use lspgraph.Protocol.{Request}
use lspgraph.Engine.{LspCalls}
use lspgraph.Engine.Valid.{IsValid, seed-IsValid, expand-IsValid, server-IsValid}
use lspgraph.Worker.{
  EngineOps, CoreEngine, core_ops, resolve, or_unknown, serve, resolve_expansion, spawn_worker,
}

module _ {S : Type 0} (calls : LspCalls S)
    (workspace_symbols : S → Text → S × Result (List SymbolMatch))
    (stop : S → S × Result {0} Unit) where
  abbrev ops : EngineOps (CoreEngine S)
  ops = core_ops calls workspace_symbols stop

  -- A node that stands for an id has that id.
  or_unknown_id :
      (c : CoreEngine S) (id : NodeId)
      → IsValid c.engine
      → (or_unknown id (get_node c.engine.graph id)).id ≡ id
  or_unknown_id c id v = elim (Option-cases (get_node c.engine.graph id)) [
    | inl missing ↦ rw missing refl
    | inr (n, there) ↦ rw there (rw there at (v.graph_formed.consistent id)).0
  ]

  resolve_ids :
      (c : CoreEngine S) (ids : List NodeId)
      → IsValid c.engine
      → map (λ n. n.id) (map (resolve ops c) ids) ≡ ids
  unfolding resolve core_ops
  resolve_ids c [] v = refl
  resolve_ids c (id ∷ ids) v = rw (or_unknown_id c id v, resolve_ids c ids v) refl

  -- Behind a valid engine, the nodes that an expansion is sent as have the ids of the expansion, in
  -- its order and number.
  pub resolve_expansion_ids :
      (c : CoreEngine S) (exp : Expansion)
      → IsValid c.engine
      → (map (λ n. n.id) (resolve_expansion ops c exp).callers ≡ exp.callers)
        × (map (λ n. n.id) (resolve_expansion ops c exp).callees ≡ exp.callees)
  unfolding resolve_expansion
  resolve_expansion_ids c exp v = (resolve_ids c exp.callers v, resolve_ids c exp.callees v)

  serve-IsValid :
      (c : CoreEngine S) (reqs : List Request)
      → IsValid c.engine
      → IsValid (serve ops c reqs).0.engine
  unfolding serve core_ops
  serve-IsValid c [] v = v
  serve-IsValid c (Request.shutdown ∷ rs) v = v
  serve-IsValid c (Request.restart ∷ rs) v = v
  serve-IsValid c (Request.search q ∷ rs) v =
      let p = workspace_symbols c.engine.server q in
      serve-IsValid (ops.search c q).0 rs (server-IsValid calls c.engine p.0 v)
  serve-IsValid c (Request.seed m ∷ rs) v =
      serve-IsValid (ops.seed c m).0 rs (seed-IsValid calls c.engine (to_named_callable m) v)
  serve-IsValid c (Request.expand id ∷ rs) v =
      serve-IsValid (ops.expand c id).0 rs (expand-IsValid calls c.engine id v)

  -- A worker that starts with a valid engine ends with one, whatever requests it is sent.
  spawn_worker-IsValid :
      (c : CoreEngine S) (reqs : List Request)
      → IsValid c.engine
      → IsValid (spawn_worker ops c reqs).0.engine
  unfolding spawn_worker core_ops
  spawn_worker-IsValid c reqs v =
      let d = (serve ops c reqs).0 in
      server-IsValid calls d.engine (stop d.engine.server).0 (serve-IsValid c reqs v)
