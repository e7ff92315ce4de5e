-- ===== src/Program/Ended.antt =====
-- However the program of crates/lspgraph-tui/src/main.rs ends, its language server is gone.
use lspgraph.Base.{
  ℕ, Bool, true, false, Option, none, some, List, [], ◌∷◌, ◌++◌, Text, codes, ◌≡◌, refl, arith,
  Bool-cases, inl, inr,
}
use lspgraph.Error.{ok, Duration}
use lspgraph.Symbols.{Url, to_named_callable}
use lspgraph.Graph.{CallHierarchyItem}
use lspgraph.Engine.{FilePath}
use lspgraph.Engine.Keeps.{CallsKeep, seed-Keeps, expand-Keeps}
use lspgraph.Protocol.{Request}
use lspgraph.Server.Lifecycle.{IsClean}
use lspgraph.Server.{Pid, Child, ConnOps, Host, LanguageServer, kill}
use lspgraph.Server.Calls.{
  lsp_calls, workspace_symbols, incoming_calls, outgoing_calls, calls_by, requested,
  request_retrying_content_modified,
}
use lspgraph.Worker.{CoreEngine, core_ops}
use lspgraph.Worker.Keeps.{OpsKeep, serve-Keeps}
use lspgraph.Program.Servers.{Answer, accept, reject}
use lspgraph.Program.Startup.{Machine, start_up}
use lspgraph.Program.System.{System, start}
use lspgraph.Program.Session.{Turn, session, Exit, conclude, failure}
use lspgraph.Program.Clean.{Is, prepare-Is, IsClean-child, IsStarted, start_up-IsStarted}
use lspgraph.Program.Run.{loop_end, server_ops, last_engine, join_worker, run}
use lspgraph.Program.Kept.{session-Keeps}

-- The state with which the loop ends, if it does.
abbrev Holds {ℓ} : {A : Type ℓ} → (A → Type 0) → Option (A × Answer {0} Unit) → Type 0
Holds P none = Unit
Holds P (some r) = P r.0

loop_end-Holds {ℓ} :
    {A : Type ℓ} (P : A → Type 0) (failed : Option Text) (r : A × Bool)
    → P r.0
    → Holds P (loop_end failed r)
loop_end-Holds P none (s, true) h = h
loop_end-Holds P (some e) (s, true) h = h
loop_end-Holds P (some e) (s, false) h = h
loop_end-Holds P none (s, false) h = tt

module _ {S : Type 0} (ops : ConnOps S) (host : Host) (to_file_path : Url → Option FilePath)
    (debug_kind : ℕ → Text) where
  calls_by-Is :
      (child : Option Pid) (searches : Bool) (method field : Text) (s : LanguageServer S)
      (item : CallHierarchyItem)
      → Is ops host child searches s
      → Is ops host child searches (calls_by ops host method field s item).0
  unfolding calls_by request_retrying_content_modified
  calls_by-Is child searches method field s item h = ground (arith, h)

  workspace_symbols-Is :
      (child : Option Pid) (searches : Bool) (s : LanguageServer S) (query : Text)
      → Is ops host child searches s
      → Is ops host child searches (workspace_symbols ops host s query).0
  unfolding workspace_symbols requested
  workspace_symbols-Is child searches s query h = ground (arith, h)

  calls-Keep :
      (child : Option Pid) (searches : Bool)
      → CallsKeep (lsp_calls ops host to_file_path debug_kind) (Is ops host child searches)
  unfolding incoming_calls outgoing_calls
  calls-Keep child searches = (
    prepare-Is ops host child searches,
    calls_by-Is child searches (codes "callHierarchy/incomingCalls") (codes "from"),
    calls_by-Is child searches (codes "callHierarchy/outgoingCalls") (codes "to"),
  )

  -- The engine's server is the one with this process and this ability.
  abbrev ServesAs : Option Pid → Bool → CoreEngine (LanguageServer S) → Type 0
  ServesAs child searches core = Is ops host child searches core.engine.server

  ops-Keep :
      (child : Option Pid) (searches : Bool)
      → OpsKeep (server_ops ops host to_file_path debug_kind) (ServesAs child searches)
  unfolding core_ops
  ops-Keep child searches =
      let calls = lsp_calls ops host to_file_path debug_kind in
      let keep = calls-Keep child searches in
      (
        λ core query h. workspace_symbols-Is child searches core.engine.server query h,
        λ core m h.
            seed-Keeps calls (Is ops host child searches) core.engine (to_named_callable m) keep h,
        λ core id h. expand-Keeps calls (Is ops host child searches) core.engine id keep h,
      )

  last_engine-ServesAs :
      (child : Option Pid) (searches : Bool) (s : System (CoreEngine (LanguageServer S)))
      → ServesAs child searches s.engine
      → ServesAs child searches (last_engine ops host to_file_path debug_kind s)
  unfolding last_engine
  last_engine-ServesAs child searches s h = elim (Bool-cases s.running) [
    | inl up ↦ rw up (
        serve-Keeps (server_ops ops host to_file_path debug_kind) (ServesAs child searches) s.engine
          (s.requests ++ Request.shutdown ∷ []) (ops-Keep child searches) h)
    | inr down ↦ rw down h
  ]

  joined :
      (alive alive' begun : List Pid) (core : CoreEngine (LanguageServer S)) (exit : Exit)
      (o : Option (System (CoreEngine (LanguageServer S)) × Answer {0} Unit))
      → IsClean ops host alive (begun, ok core.engine.server)
      → Holds
          (λ s.
            ServesAs core.engine.server.child core.engine.server.supports_workspace_symbol s.engine)
          o
      → ◌≡◌ {A = Option (List Pid × Exit)}
          (elim o [
            | none ↦ none
            | some (s, result) ↦
                some (join_worker ops host to_file_path debug_kind s begun, conclude result s.app)
          ])
          (some (alive', exit))
      → alive' ≡ alive
  unfolding join_worker
  joined alive alive' begun core exit none clean serves h = cc
  joined alive alive' begun core exit (some (s, result)) clean serves h =
      let server = core.engine.server in
      let last = last_engine ops host to_file_path debug_kind s in
      let same = last_engine-ServesAs server.child server.supports_workspace_symbol s serves in
      let left = IsClean-child ops host alive begun server last.engine.server same.0 clean in
      cc left.2

  -- However the program ends, be it in the start, by an error of the screen or the keys, by the user
  -- or by a fatal event, and in whatever order the threads took turns: the processes that run are those
  -- that ran before, if a spawned process gets a number that no running one has.
  pub run-IsClean :
      (now : S → Duration) (machine : Machine) (fuel : ℕ) (args : List Text) (turns : List Turn)
      (failed : Option Text) (alive alive' : List Pid) (exit : Exit)
      → ((prog : Text) (args : List Text) (root : FilePath) (child : Child)
          → host.spawn prog args root ≡ ok child
          → kill child.pid alive ≡ alive)
      → run ops host to_file_path debug_kind now machine fuel args turns failed alive
        ≡ some (alive', exit)
      → alive' ≡ alive
  unfolding run
  run-IsClean now machine fuel args turns failed alive alive' exit fresh h =
      finished (start_up ops host now to_file_path machine fuel args alive)
        (λ r e. start_up-IsStarted ops host now to_file_path machine fuel args alive r fresh e) h
    where
      finished :
          (started : Option (List Pid × Answer (CoreEngine (LanguageServer S))))
          → ((r : List Pid × Answer (CoreEngine (LanguageServer S)))
              → started ≡ some r
              → IsStarted ops host now to_file_path alive r)
          → ◌≡◌ {A = Option (List Pid × Exit)}
              (elim started [
                | none ↦ none
                | some (begun, reject why) ↦ some (begun, failure why)
                | some (begun, accept core) ↦
                    elim (loop_end failed (
                      session
                        (server_ops ops host to_file_path debug_kind)
                        turns
                        (start (server_ops ops host to_file_path debug_kind) core))) [
                          | none ↦ none
                          | some (s, result) ↦ some (
                            join_worker ops host to_file_path debug_kind s begun,
                            conclude result s.app,
                          )
                        ]
              ])
              (some (alive', exit))
          → alive' ≡ alive
      finished none clean h = cc
      finished (some (begun, reject why)) clean h = cc (clean (begun, reject why) refl)
      finished (some (begun, accept core)) clean h =
          let ops' = server_ops ops host to_file_path debug_kind in
          let server = core.engine.server in
          let kept = ops-Keep server.child server.supports_workspace_symbol in
          let r = session ops' turns (start ops' core) in
          let serves =
            session-Keeps ops' (ServesAs server.child server.supports_workspace_symbol) kept turns
              (start ops' core) (refl, refl) in
          joined alive alive' begun core exit (loop_end failed r)
            (clean (begun, accept core) refl).0
            (loop_end-Holds (λ s. ServesAs server.child server.supports_workspace_symbol s.engine)
              failed r serves)
            h
