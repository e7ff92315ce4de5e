-- ===== src/Program/Clean.antt =====
-- The start of the program leaks no process.
use lspgraph.Base.{ℕ, Bool, Option, none, some, List, Text, ◌≡◌, refl, sym, subst, arith}
use lspgraph.Error.{Result, ok, err, Duration, to_string}
use lspgraph.Symbols.{Url}
use lspgraph.Graph.{Position}
use lspgraph.Engine
use lspgraph.Engine.{FilePath}
use lspgraph.Server.{Pid, Child, ConnOps, Host, LanguageServer, kill, kill_and_reap}
use lspgraph.Server.Calls.{
  start, drop_server, shutdown, open_file, document_symbols, prepare_call_hierarchy, requested,
  request_retrying_content_modified,
}
use lspgraph.Server.Lifecycle.{IsClean, start-IsClean}
use lspgraph.Server.Probe.{probe}
use lspgraph.Readiness.{from_server_config}
use lspgraph.Readiness.Wait.{wait_until_ready}
use lspgraph.Readiness.Keeps.{AllKeep, KeepsIn, wait_until_ready-Keeps}
use lspgraph.Worker.{CoreEngine}
use lspgraph.Program.Servers.{Answer, accept, reject}
use lspgraph.Program.Startup.{Machine, Launch, prepare, await_server, launch, start_up}

module _ {S : Type 0} (ops : ConnOps S) (host : Host) where
  -- The server is the one with this process and this ability.
  abbrev pub Is : Option Pid → Bool → LanguageServer S → Type 0
  Is child searches server = (server.child ≡ child) × (server.supports_workspace_symbol ≡ searches)

  open_file-Is :
      (child : Option Pid) (searches : Bool) (s : LanguageServer S) (path : FilePath)
      (language_id : Text)
      → Is child searches s
      → Is child searches (open_file ops host s path language_id).0
  unfolding open_file
  open_file-Is child searches s path language_id h = ground (arith, h)

  document_symbols-Is :
      (child : Option Pid) (searches : Bool) (s : LanguageServer S) (path : FilePath)
      → Is child searches s
      → Is child searches (document_symbols ops host s path).0
  unfolding document_symbols requested
  document_symbols-Is child searches s path h = ground (arith, h)

  pub prepare-Is :
      (child : Option Pid) (searches : Bool) (s : LanguageServer S) (path : FilePath)
      (pos : Position)
      → Is child searches s
      → Is child searches (prepare_call_hierarchy ops host s path pos).0
  unfolding prepare_call_hierarchy request_retrying_content_modified
  prepare-Is child searches s path pos h = ground (arith, h)

  -- What is left of the processes depends on the server's own.
  pub IsClean-child :
      (alive alive' : List Pid) (s t : LanguageServer S)
      → t.child ≡ s.child
      → IsClean ops host alive (alive', ok s)
      → IsClean ops host alive (alive', ok t)
  unfolding shutdown drop_server
  IsClean-child alive alive' s t same clean = subst Left (sym same) clean
    where
      Left : Option Pid → Type 0
      Left child =
          let r = kill_and_reap child alive' in
          (r.1 ≡ alive) × (r.1 ≡ alive) × ((kill_and_reap r.0 r.1).1 ≡ alive)

  module _ (now : S → Duration) (to_file_path : Url → Option FilePath) where
    -- What the start leaves of the processes that ran before: nothing more where it fails; otherwise the
    -- server's, which ends with the server, whose ability to search the engine knows.
    abbrev pub IsStarted : List Pid → List Pid × Answer (CoreEngine (LanguageServer S)) → Type 0
    IsStarted alive (alive', reject why) = alive' ≡ alive
    IsStarted alive (alive', accept core) =
        IsClean ops host alive (alive', ok core.engine.server)
        × (core.can_search ≡ core.engine.server.supports_workspace_symbol)

    -- The same of a result, if there is one.
    abbrev StartedIn :
        List Pid → Option (List Pid × Answer (CoreEngine (LanguageServer S))) → Type 0
    StartedIn alive none = Unit
    StartedIn alive (some r) = IsStarted alive r

    probe-AllKeep :
        (child : Option Pid) (searches : Bool)
        → AllKeep (probe ops host now to_file_path) (Is child searches)
    probe-AllKeep child searches = (
      λ s d h. h,
      open_file-Is child searches,
      document_symbols-Is child searches,
      prepare-Is child searches,
    )

    await_server-StartedIn :
        (fuel : ℕ) (l : Launch) (alive alive' : List Pid) (server : LanguageServer S)
        → IsClean ops host alive (alive', ok server)
        → StartedIn alive (await_server ops host now to_file_path fuel l alive' server)
    unfolding await_server
    await_server-StartedIn fuel l alive alive' server clean =
        let waited =
          wait_until_ready (probe ops host now to_file_path) fuel server l.files l.lang
            (from_server_config l.server_cfg) in
        let kept =
          wait_until_ready-Keeps (probe ops host now to_file_path)
            (Is server.child server.supports_workspace_symbol) fuel server l.files l.lang
            (from_server_config l.server_cfg)
            (probe-AllKeep server.child server.supports_workspace_symbol) (refl, refl) in
        finished waited kept
      where
        finished :
            (waited : Option (LanguageServer S × Result {0} Unit))
            → KeepsIn
                (probe ops host now to_file_path)
                (Is server.child server.supports_workspace_symbol)
                waited
            → StartedIn alive (elim waited [
              | none ↦ none
              | some (server', err e) ↦
                  some (drop_server ops host server' alive', reject (to_string e))
              | some (server', ok _) ↦ some (
                alive',
                accept (record {
                  engine = Engine.new server';
                  can_search = server.supports_workspace_symbol;
                }),
              )
            ])
        finished none kept = tt
        finished (some (server', err e)) kept =
            (IsClean-child alive alive' server server' kept.0 clean).1
        finished (some (server', ok u)) kept =
            (IsClean-child alive alive' server server' kept.0 clean, sym kept.1)

    launch-StartedIn :
        (fuel : ℕ) (l : Launch) (alive : List Pid)
        → ((prog : Text) (args : List Text) (child : Child)
            → host.spawn prog args l.root ≡ ok child
            → kill child.pid alive ≡ alive)
        → StartedIn alive (launch ops host now to_file_path fuel l alive)
    unfolding launch
    launch-StartedIn fuel l alive fresh =
        let (alive', started) = start ops host l.lang l.server_cfg l.root alive in
        finished alive' started (start-IsClean ops host l.lang l.server_cfg l.root alive fresh)
      where
        finished :
            (alive' : List Pid) (started : Result (LanguageServer S))
            → IsClean ops host alive (alive', started)
            → StartedIn alive (elim started [
              | err e ↦ some (alive', reject (to_string e))
              | ok server ↦ await_server ops host now to_file_path fuel l alive' server
            ])
        finished alive' (err e) clean = clean
        finished alive' (ok server) clean = await_server-StartedIn fuel l alive alive' server clean

    -- The start leaks no process, if a spawned process gets a number that no running one has: where it
    -- fails, be it the command line, the configuration, the terminal, the server or its readiness, only
    -- the processes that ran before are left; otherwise one more runs, which ends when the server is
    -- shut down, dropped, or both, and the engine knows whether that server can search.
    pub start_up-IsStarted :
        (machine : Machine) (fuel : ℕ) (args : List Text) (alive : List Pid)
        (r : List Pid × Answer (CoreEngine (LanguageServer S)))
        → ((prog : Text) (args : List Text) (root : FilePath) (child : Child)
            → host.spawn prog args root ≡ ok child
            → kill child.pid alive ≡ alive)
        → start_up ops host now to_file_path machine fuel args alive ≡ some r
        → IsStarted alive r
    unfolding start_up
    start_up-IsStarted machine fuel args alive r fresh h =
        subst (StartedIn alive) h (finished (prepare machine fuel args))
      where
        finished :
            (prepared : Option (Answer Launch))
            → StartedIn alive (elim prepared [
              | none ↦ none
              | some (reject why) ↦ some (alive, reject why)
              | some (accept l) ↦ launch ops host now to_file_path fuel l alive
            ])
        finished none = tt
        finished (some (reject why)) = refl
        finished (some (accept l)) =
            launch-StartedIn fuel l alive (λ prog rest child. fresh prog rest l.root child)
