-- ===== src/Program/Run.antt =====
-- The whole of `run` and `main` in crates/lspgraph-tui/src/main.rs: the start, the session, and the
-- end, with the processes that run. `turns` is the order in which the threads act, and `failed` the
-- error of drawing or of reading keys that ends the loop behind them, if there is one.
use lspgraph.Base.{
  ℕ, Bool, true, false, Option, none, some, List, [], ◌∷◌, ◌++◌, Text, if◌then◌else◌,
}
use lspgraph.Error.{ok, Duration}
use lspgraph.Symbols.{Url}
use lspgraph.Engine.{FilePath}
use lspgraph.Protocol.{Request}
use lspgraph.Server.{Pid, ConnOps, Host, LanguageServer}
use lspgraph.Server.Calls.{lsp_calls, workspace_symbols, shutdown, drop_server}
use lspgraph.Worker.{CoreEngine, EngineOps, core_ops, serve}
use lspgraph.Program.Servers.{Answer, accept, reject}
use lspgraph.Program.Startup.{Machine, start_up}
use lspgraph.Program.System.{System, start}
use lspgraph.Program.Session.{Turn, session, Exit, failure, conclude}

-- How the loop ends: by the wish to quit, or by an error.
abbrev pub loop_end {ℓ} : {A : Type ℓ} → Option Text → A × Bool → Option (A × Answer {0} Unit)
loop_end failed (s, true) = some (s, accept tt)
loop_end (some e) (s, false) = some (s, reject e)
loop_end none (s, false) = none

module _ {S : Type 0} (ops : ConnOps S) (host : Host) (to_file_path : Url → Option FilePath)
    (debug_kind : ℕ → Text) where
  -- `CoreEngine` over the language server.
  abbrev pub server_ops : EngineOps (CoreEngine (LanguageServer S))
  server_ops =
      core_ops (lsp_calls ops host to_file_path debug_kind) (workspace_symbols ops host)
        (λ server. ((shutdown ops host server []).0, ok tt))

  -- The engine with which the worker leaves its loop: it does what it was sent before the request to
  -- shut down, unless it has left the loop already.
  unfoldable pub last_engine :
      System (CoreEngine (LanguageServer S)) → CoreEngine (LanguageServer S)
  unfolding serve
  last_engine s =
      if s.running
      then (serve server_ops s.engine (s.requests ++ Request.shutdown ∷ [])).0
      else s.engine

  -- The end of the worker's thread: the server is shut down, and dropped with the engine.
  unfoldable pub join_worker : System (CoreEngine (LanguageServer S)) → List Pid → List Pid
  unfolding last_engine shutdown drop_server
  join_worker s alive =
      let (server, left) = shutdown ops host (last_engine s).engine.server alive in
      drop_server ops host server left

  unfoldable pub run :
      (S → Duration)
      → Machine
      → ℕ
      → List Text
      → List Turn
      → Option Text
      → List Pid
      → Option (List Pid × Exit)
  unfolding start_up session conclude join_worker
  run now machine fuel args turns failed alive =
      elim (start_up ops host now to_file_path machine fuel args alive) [
        | none ↦ none
        | some (alive', reject why) ↦ some (alive', failure why)
        | some (alive', accept core) ↦
            elim (loop_end failed (session server_ops turns (start server_ops core))) [
              | none ↦ none
              | some (s, result) ↦ some (join_worker s alive', conclude result s.app)
            ]
      ]
