-- ===== src/Program/Session.antt =====
-- The loop of `run` in crates/lspgraph-tui/src/main.rs, and how the program ends. Drawing is left out,
-- but for its failure.
use lspgraph.Base.{
  ℕ, Bool, true, false, Option, none, some, List, [], ◌∷◌, ◌++◌, Text, codes, if◌then◌else◌,
}
use lspgraph.App.{App}
use lspgraph.Keys.{KeyEvent}
use lspgraph.Worker.{EngineOps}
use lspgraph.Program.System.{System, frame, work}
use lspgraph.Program.Servers.{Answer, accept, reject}

-- The threads take turns: the interface runs a frame, or the worker does a request.
pub data Turn : Type 0 where
  frame_of : ℕ → Bool → Option KeyEvent → Turn
  worker : Turn

module _ {S : Type 0} (ops : EngineOps S) where
  unfoldable pub take_turn : Turn → System S → System S
  unfolding frame work
  take_turn (frame_of n gone key) s = frame n gone key s
  take_turn worker s = if s.running then work ops s else s

  -- The loop, up to the first turn behind which the interface is to quit: the state, and whether it has
  -- come to that.
  unfoldable pub session : List Turn → System S → System S × Bool
  unfolding take_turn
  session [] s = (s, false)
  session (t ∷ turns) s =
      let after = take_turn t s in
      let rest = session turns after in if after.app.should_quit then (after, true) else rest

-- How the program ends: its status and what it prints.
pub record Exit : Type 0 where
  pub status : ℕ
  pub printed : Option Text

abbrev pub failure : Text → Exit
failure e = record { status = 1; printed = some (codes "lspgraph: " ++ e) }

-- The end of `run`, with `main`: an error of the loop first, then what the interface shows.
unfoldable pub conclude : Answer {0} Unit → App → Exit
conclude (reject e) a = failure e
conclude (accept _) a = elim a.error [
  | some e ↦ failure e
  | none ↦ record { status = 0; printed = none }
]
