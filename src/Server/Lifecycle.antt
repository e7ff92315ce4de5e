-- ===== src/Server/Lifecycle.antt =====
-- The life of the server's process: started once, killed on every path that ends it.
use lspgraph.Base.{◌&&◌, codes, some, List, [], ◌∷◌, Text, ◌≡◌, refl, arith, inl, inr, Bool-cases}
use lspgraph.Error.{from_secs, Result, ok, err, Result-cases}
use lspgraph.Json.{Value}
use lspgraph.Config.{ServerConfig, command}
use lspgraph.Engine.{FilePath}
use lspgraph.Server.{
  json, initialize_params, Pid, Child, ConnOps, Host, LanguageServer, kill, kill_and_reap, offers,
}
use lspgraph.Server.Calls.{introduce, handshake, start, shutdown, drop_server}

-- Killing a process that was started beside others leaves the others.
kill-own : (pid : Pid) (alive : List Pid) → kill pid alive ≡ alive → kill pid (pid ∷ alive) ≡ alive
unfolding kill
kill-own pid alive fresh = ground (arith, fresh)

module _ {S : Type 0} (ops : ConnOps S) (host : Host) where
  -- The server holds the process that it was started with.
  abbrev HoldsChild : Child → Result (LanguageServer S) → Type 0
  HoldsChild child (err e) = Unit
  HoldsChild child (ok server) = server.child ≡ some child.pid

  introduce-HoldsChild :
      (name : Text) (root : FilePath) (child : Child) (conn : S) (caps : Value)
      → HoldsChild child (introduce ops host name root child conn caps)
  unfolding introduce
  introduce-HoldsChild name root child conn caps =
      elim (Result-cases (ops.notify conn (codes "initialized") (json [])).1) [
        | inl (x, bad) ↦ rw (bad, introduce) tt
        | inr (u, good) ↦ rw (good, introduce) refl
      ]

  handshake-HoldsChild :
      (name : Text) (root : FilePath) (child : Child)
      → HoldsChild child (handshake ops host name root child)
  unfolding handshake
  handshake-HoldsChild name root child = elim (Bool-cases (child.has_stdout && child.has_stdin)) [
    | inr missing ↦ rw missing tt
    | inl piped ↦
        let r =
          ops.request (ops.connect child) (codes "initialize") (initialize_params host root)
            (from_secs 180) in
        rw piped (elim (Result-cases r.1) [
          | inl (x, bad) ↦ rw (bad, handshake) tt
          | inr (caps, good) ↦
              rw (good, handshake)
                (elim (Bool-cases (offers caps (codes "callHierarchyProvider"))) [
                  | inl able ↦ rw able (introduce-HoldsChild name root child r.0 caps)
                  | inr unable ↦ rw unable tt
                ])
        ])
  ]

  -- What `start` leaves of the processes that ran before.
  abbrev pub IsClean : List Pid → List Pid × Result (LanguageServer S) → Type 0
  IsClean alive (alive', err e) = alive' ≡ alive
  IsClean alive (alive', ok server) =
      ((shutdown ops host server alive').1 ≡ alive)
      × (drop_server ops host server alive' ≡ alive)
      × (let r = shutdown ops host server alive' in drop_server ops host r.0 r.1 ≡ alive)

  ended :
      (pid : Pid) (alive alive' : List Pid) (server : LanguageServer S)
      → server.child ≡ some pid
      → kill pid alive' ≡ alive
      → IsClean alive (alive', ok server)
  unfolding shutdown drop_server kill_and_reap
  ended pid alive alive' server held own = (
    rw (held, kill_and_reap, own) refl,
    rw (held, kill_and_reap, own) refl,
    rw (held, kill_and_reap, own) refl,
  )

  -- No path leaks a process, if a spawned process gets a number that no running one has: a `start`
  -- that fails, for whatever reason, leaves the processes that ran before, and so does a server that
  -- was started and is shut down, dropped, or shut down and then dropped.
  pub start-IsClean :
      (name : Text) (cfg : ServerConfig) (root : FilePath) (alive : List Pid)
      → ((prog : Text) (args : List Text) (child : Child)
          → host.spawn prog args root ≡ ok child
          → kill child.pid alive ≡ alive)
      → IsClean alive (start ops host name cfg root alive)
  unfolding start
  start-IsClean name cfg root alive fresh =
      let c = command cfg in
      elim (Result-cases (host.spawn c.0 c.1 root)) [
        | inl (x, bad) ↦ rw (bad, start) refl
        | inr (child, spawned) ↦
            let own = kill-own child.pid alive (fresh c.0 c.1 child spawned) in
            rw (spawned, start)
              (elim (Result-cases (handshake ops host name root child)) [
                | inl (x, bad) ↦ rw (bad, start) own
                | inr (server, good) ↦
                    rw (good, start)
                      let held : server.child ≡ some child.pid =
                          rw good at (handshake-HoldsChild name root child) in
                        ended child.pid alive (child.pid ∷ alive) server held own
              ])
      ]
