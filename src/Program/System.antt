-- ===== src/Program/System.antt =====
-- The session of crates/lspgraph-tui/src/main.rs: the interface's loop, the worker's thread, and
-- the two channels between them. The threads take turns in any order; the loop of `run` is one of
-- the ways.
use lspgraph.Base.{
  not, ◌&&◌, if◌then◌else◌, ℕ, zero, suc, Bool, true, false, Option, none, some, List, [], ◌∷◌,
  ◌++◌, ◌≡◌,
}
use lspgraph.Protocol.{Request, Event}
use lspgraph.App.{App, quit}
use lspgraph.App.Events.{on_event}
use lspgraph.Keys.{KeyEvent, handle_key}
use lspgraph.Worker.{EngineOps, serve}

-- The interface, the requests and the events under way, and the worker's engine; a worker that has
-- left its loop no longer runs.
pub record System (S : Type 0) : Type 0 where
  pub app : App
  pub requests : List Request
  pub events : List Event
  pub engine : S
  pub running : Bool

-- Whether the worker goes on behind a request.
abbrev pub goes_on : Request → Bool
goes_on Request.restart = false
goes_on Request.shutdown = false
goes_on r = true

module _ {S : Type 0} where
  -- A step of the interface, with the requests that it sends.
  abbrev pub interact : System S → App × List Request → System S
  interact s (app, sent) = record s { app = app; requests = s.requests ++ sent }

  -- `Ok(ev)` of `try_recv`: the first event under way is handled.
  unfoldable pub receive_event : System S → System S
  unfolding on_event
  receive_event s = elim s.events [
    | [] ↦ s
    | ev ∷ events ↦ interact (record s { events = events }) (on_event s.app ev)
  ]

  -- `Err(TryRecvError::Disconnected)`.
  abbrev pub disconnected : System S → System S
  disconnected s = record s { app = quit s.app }

  unfoldable pub press : System S → KeyEvent → System S
  unfolding handle_key
  press s key = interact s (handle_key s.app key)

  -- The inner loop of a frame, which takes the `n` events that it finds.
  unfoldable pub drain_events : ℕ → System S → System S
  unfolding receive_event
  drain_events zero s = s
  drain_events (suc n) s = drain_events n (receive_event s)

  -- The end of the inner loop: nothing is left, or, where the worker has hung up by then (`gone`), the
  -- channel is disconnected.
  unfoldable pub end_drain : Bool → System S → System S
  end_drain gone s = elim s.events [
    | [] ↦ if gone && not s.running then disconnected s else s
    | ev ∷ events ↦ s
  ]

  -- A frame of `run`: the events that are there, and a key if one comes in time.
  unfoldable pub frame : ℕ → Bool → Option KeyEvent → System S → System S
  unfolding drain_events end_drain press
  frame n gone none s = end_drain gone (drain_events n s)
  frame n gone (some key) s = press (end_drain gone (drain_events n s)) key

module _ {S : Type 0} (ops : EngineOps S) where
  -- The worker takes the first request.
  unfoldable pub work : System S → System S
  unfolding serve
  work s = elim s.requests [
    | [] ↦ s
    | r ∷ requests ↦
        let (engine, events) = serve ops s.engine (r ∷ []) in
        record s {
          engine = engine;
          requests = requests;
          events = s.events ++ events;
          running = goes_on r;
        }
  ]

  -- A session that begins: the worker has said that it is ready.
  abbrev pub start : S → System S
  start engine = record {
    app = lspgraph.App.new;
    requests = [];
    events = Event.ready (ops.can_search engine) ∷ [];
    engine = engine;
    running = true;
  }

  -- What can happen next, in whatever order the threads run.
  pub data Step (s : System S) : System S → Type 0 where
    pressed : (key : KeyEvent) → Step s (press s key)
    received : Step s (receive_event s)
    worked : s.running ≡ true → Step s (work s)
    hung_up : s.running ≡ false → s.events ≡ [] → Step s (disconnected s)

  pub data Reach (engine : S) : System S → Type 0 where
    begin : Reach engine (start engine)
    next : {s t : System S} → Reach engine s → Step s t → Reach engine t
