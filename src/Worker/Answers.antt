-- ===== src/Worker/Answers.antt =====
-- What the worker answers: one event to each request, in order, and none behind the last request it
-- takes.
use lspgraph.Base.{List, [], ◌∷◌, ◌≢◌, Option, none, some, Text}
use lspgraph.Error.{Result, ok, err}
use lspgraph.Graph.{NodeId, Node, Expansion}
use lspgraph.Symbols.{SymbolMatch}
use lspgraph.Protocol.{Request, Event, ResolvedExpansion}
use lspgraph.Worker.{EngineOps, search_event, seed_event, expand_event, serve, relaunch_text}

-- Which events answer a request.
pub data Answers : Request → Event → Type 0 where
  found : (q : Text) (ms : List SymbolMatch) → Answers (Request.search q) (Event.matches ms)
  search_failed : (q t : Text) → Answers (Request.search q) (Event.warning t)
  seeded : (m : SymbolMatch) (n : Option Node) → Answers (Request.seed m) (Event.seeded n)
  seed_failed : (m : SymbolMatch) (t : Text) → Answers (Request.seed m) (Event.warning t)
  expanded :
      (id : NodeId) (r : ResolvedExpansion) → Answers (Request.expand id) (Event.expanded id r)
  expand_failed : (id : NodeId) (t : Text) → Answers (Request.expand id) (Event.failed id t)
  restarted : Answers Request.restart (Event.fatal relaunch_text)

-- The events are those of a worker that has taken these requests: each is answered, a restart is
-- the last that is, and a shutdown ends the list without an answer.
pub data AllAnswered : List Request → List Event → Type 0 where
  closed : AllAnswered [] []
  stopped : (rs : List Request) → AllAnswered (Request.shutdown ∷ rs) []
  refused :
      (rs : List Request) (ev : Event)
      → Answers Request.restart ev
      → AllAnswered (Request.restart ∷ rs) (ev ∷ [])
  answered :
      (r : Request) (rs : List Request) (ev : Event) (evs : List Event)
      → r ≢ Request.restart
      → Answers r ev
      → AllAnswered rs evs
      → AllAnswered (r ∷ rs) (ev ∷ evs)

module _ {S : Type 0} (ops : EngineOps S) where
  search-Answers :
      (q : Text) (a : Result (List SymbolMatch)) → Answers (Request.search q) (search_event ops a)
  unfolding search_event
  search-Answers q (ok ms) = found q ms
  search-Answers q (err e) = search_failed q _

  seed-Answers :
      (s : S) (m : SymbolMatch) (a : Result (Option NodeId))
      → Answers (Request.seed m) (seed_event ops s a)
  unfolding seed_event
  seed-Answers s m (ok none) = seeded m none
  seed-Answers s m (ok (some id)) = seeded m _
  seed-Answers s m (err e) = seed_failed m _

  expand-Answers :
      (s : S) (id : NodeId) (a : Result Expansion)
      → Answers (Request.expand id) (expand_event ops s id a)
  unfolding expand_event
  expand-Answers s id (ok exp) = expanded id _
  expand-Answers s id (err e) = expand_failed id _

  -- Whatever the engine does, the worker answers the requests it takes with one event each, of the
  -- kind the request asks for and under its id, in order; it takes none behind a restart, which is
  -- answered, or a shutdown, which is not.
  pub serve-AllAnswered :
      (engine : S) (reqs : List Request) → AllAnswered reqs (serve ops engine reqs).1
  unfolding serve
  serve-AllAnswered engine [] = closed
  serve-AllAnswered engine (Request.shutdown ∷ rs) = stopped rs
  serve-AllAnswered engine (Request.restart ∷ rs) = refused rs _ restarted
  serve-AllAnswered engine (Request.search q ∷ rs) =
      let r = ops.search engine q in
      answered _ rs _ _ (λ p. cc) (search-Answers q r.1) (serve-AllAnswered r.0 rs)
  serve-AllAnswered engine (Request.seed m ∷ rs) =
      let r = ops.seed engine m in
      answered _ rs _ _ (λ p. cc) (seed-Answers r.0 m r.1) (serve-AllAnswered r.0 rs)
  serve-AllAnswered engine (Request.expand id ∷ rs) =
      let r = ops.expand engine id in
      answered _ rs _ _ (λ p. cc) (expand-Answers r.0 id r.1) (serve-AllAnswered r.0 rs)
