-- ===== src/Worker.antt =====
-- crates/lspgraph-tui/src/worker.rs: the thread that owns the engine, with `EngineOps` of
-- crates/lspgraph-tui/src/protocol.rs. The requests it receives are a list, whose end is the end of
-- the channel; the events it sends are another.
pub mod Answers
pub mod Core
pub mod Keeps
use lspgraph.Base.{Bool, Option, none, some, List, [], ◌∷◌, map, Text, codes}
use lspgraph.Error.{Result, ok, err, to_string}
use lspgraph.Graph.{Expansion, Node, NodeId, get_node, unexpanded}
use lspgraph.Symbols.{SymbolMatch, to_named_callable}
use lspgraph.Protocol
use lspgraph.Protocol.{Request, Event, ResolvedExpansion}
use lspgraph.Engine
use lspgraph.Engine.{Engine, LspCalls}

-- What the worker needs of an engine; a call that may change it gives the engine behind it.
pub record EngineOps (S : Type 0) : Type 0 where
  pub can_search : S → Bool
  pub search : S → Text → S × Result (List SymbolMatch)
  pub seed : S → SymbolMatch → S × Result (Option NodeId)
  pub expand : S → NodeId → S × Result Expansion
  pub node : S → NodeId → Option Node
  pub shutdown : S → S × Result {0} Unit

-- The node that stands for an endpoint that the graph does not know.
abbrev pub unknown_node : NodeId → Node
unknown_node id = record {
  id = id;
  kind_name = codes "Function";
  detail = none;
  state = unexpanded;
}

abbrev pub or_unknown : NodeId → Option Node → Node
or_unknown id none = unknown_node id
or_unknown id (some n) = n

abbrev pub relaunch_text : Text
relaunch_text = codes "language server restart requires relaunching lspgraph"

module _ {S : Type 0} (ops : EngineOps S) where
  unfoldable pub resolve : S → NodeId → Node
  resolve engine id = or_unknown id (ops.node engine id)

  unfoldable pub resolve_expansion : S → Expansion → ResolvedExpansion
  unfolding resolve
  resolve_expansion engine exp = record {
    callers = map (resolve engine) exp.callers;
    callees = map (resolve engine) exp.callees;
  }

  -- The events for the three answers of the engine.
  unfoldable pub search_event : Result (List SymbolMatch) → Event
  search_event (ok ms) = Event.matches ms
  search_event (err e) = Event.warning (to_string e)

  unfoldable pub seed_event : S → Result (Option NodeId) → Event
  unfolding resolve
  seed_event engine (ok none) = Event.seeded none
  seed_event engine (ok (some id)) = Event.seeded (some (resolve engine id))
  seed_event engine (err e) = Event.warning (to_string e)

  unfoldable pub expand_event : S → NodeId → Result Expansion → Event
  unfolding resolve_expansion
  expand_event engine id (ok exp) = Event.expanded id (resolve_expansion engine exp)
  expand_event engine id (err e) = Event.failed id (to_string e)

  -- The `while let Ok(req) = rx.recv()` loop: the engine and the events it ends with.
  unfoldable pub serve : S → List Request → S × List Event
  unfolding search_event seed_event expand_event
  serve engine [] = (engine, [])
  serve engine (Request.shutdown ∷ reqs) = (engine, [])
  serve engine (Request.restart ∷ reqs) = (engine, Event.fatal relaunch_text ∷ [])
  serve engine (Request.search q ∷ reqs) =
      let (engine', answer) = ops.search engine q in
      let (last, events) = serve engine' reqs in (last, search_event answer ∷ events)
  serve engine (Request.seed m ∷ reqs) =
      let (engine', answer) = ops.seed engine m in
      let (last, events) = serve engine' reqs in (last, seed_event engine' answer ∷ events)
  serve engine (Request.expand id ∷ reqs) =
      let (engine', answer) = ops.expand engine id in
      let (last, events) = serve engine' reqs in (last, expand_event engine' id answer ∷ events)

  -- The body of the thread.
  unfoldable pub spawn_worker : S → List Request → S × List Event
  unfolding serve
  spawn_worker engine reqs =
      let (last, events) = serve engine reqs in
      ((ops.shutdown last).0, Event.ready (ops.can_search engine) ∷ events)

-- The engine and whether its server can search.
pub record CoreEngine (S : Type 0) : Type 0 where
  pub engine : Engine S
  pub can_search : Bool

-- `impl EngineOps for CoreEngine`, over the server's `workspace_symbols` and `shutdown`.
module _ {S : Type 0} (calls : LspCalls S)
    (workspace_symbols : S → Text → S × Result (List SymbolMatch))
    (stop : S → S × Result {0} Unit) where
  abbrev pub with_engine : CoreEngine S → Engine S → CoreEngine S
  with_engine c e = record c { engine = e }

  abbrev pub with_server : CoreEngine S → S → CoreEngine S
  with_server c s = record c { engine = record c.engine { server = s } }

  unfoldable pub core_ops : EngineOps (CoreEngine S)
  unfolding to_named_callable Engine.seed Engine.expand Engine.shutdown
  core_ops = record {
    can_search = λ c. c.can_search;
    search = λ c query.
        let (s, answer) = workspace_symbols c.engine.server query in (with_server c s, answer);
    seed = λ c m.
        let (e, answer) = Engine.seed calls c.engine (to_named_callable m) in
        (with_engine c e, answer);
    expand = λ c id. let (e, answer) = Engine.expand calls c.engine id in (with_engine c e, answer);
    node = λ c id. get_node c.engine.graph id;
    shutdown = λ c. let (s, answer) = Engine.shutdown stop c.engine in (with_server c s, answer);
  }
