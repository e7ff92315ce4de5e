-- ===== src/Program/Startup.antt =====
-- The start of `run` in crates/lspgraph-tui/src/main.rs, up to the worker. What it prints on the way
-- is left out. The command line, the files and the terminal are parameters; the loops of
-- `source_files` and `wait_until_ready` have fuel.
use lspgraph.Base.{
  ◌⊎◌, ℕ, Bool, Option, none, some, List, [], ◌∷◌, ◌++◌, Text, Text-discrete, codes, if◌then◌else◌,
}
use lspgraph.Base.Map.{get, keys}
use lspgraph.Error.{Result, ok, err, Duration, to_string}
use lspgraph.Symbols.{Url}
use lspgraph.Config.{Config, ServerConfig, from_toml}
use lspgraph.Engine
use lspgraph.Engine.{FilePath}
use lspgraph.Server.{Pid, ConnOps, Host, LanguageServer}
use lspgraph.Server.Calls.{start, drop_server}
use lspgraph.Server.Probe.{probe}
use lspgraph.Readiness.{from_server_config}
use lspgraph.Readiness.Wait.{wait_until_ready}
use lspgraph.Worker.{CoreEngine}
use lspgraph.Program.Files.{Fs, source_files}
use lspgraph.Program.Servers.{Env, Answer, accept, reject, join_with, find_servers_toml}

-- The conversions of an error by `?` give its message. `debug` is the format `{:?}` of a text, and
-- `from_str` the parser of the crate toml.
pub record Machine : Type 0 where
  pub env : Env
  pub fs : Fs
  pub canonicalize : FilePath → Answer FilePath
  pub read_to_string : FilePath → Answer Text
  pub from_str : Text → Config ⊎ Text
  pub debug : Text → Text
  pub is_terminal : Bool

-- What the start has found out when the server is to be started.
pub record Launch : Type 0 where
  pub lang : Text
  pub root : FilePath
  pub server_cfg : ServerConfig
  pub files : List FilePath

abbrev pub usage : Text
usage = codes "usage: lspgraph <language> <root>"

abbrev pub no_terminal_text : Text
no_terminal_text =
    codes
      "lspgraph draws a full-screen interface and needs a terminal; stdout is not one here (piped or redirected?)"

infixl 5 ◌>>=◌
abbrev ◌>>=◌ {ℓ κ} : {A : Type ℓ} {B : Type κ} → Answer A → (A → Answer B) → Answer B
accept a >>= f = f a
reject why >>= f = reject why

-- `?` on a result of lspgraph-core.
abbrev or_message {ℓ} : {A : Type ℓ} → Result A → Answer A
or_message (ok a) = accept a
or_message (err e) = reject (to_string e)

module _ (machine : Machine) where
  open machine use {env, fs, canonicalize, read_to_string, from_str, debug, is_terminal}

  -- The keys are in order already.
  abbrev pub unknown_text : Text → FilePath → Config → Text
  unknown_text lang cfg_path cfg =
      codes "no language named "
      ++ (debug lang
          ++ (codes " in "
              ++ (env.display cfg_path
                  ++ (codes ". It defines: " ++ join_with (codes ", ") (keys cfg.servers)))))

  -- `cfg.servers.get(&lang)`.
  unfoldable pub server_named : Text → FilePath → Config → Answer ServerConfig
  unfolding get Text-discrete join_with
  server_named lang cfg_path cfg = elim (get Text-discrete lang cfg.servers) [
    | none ↦ reject (unknown_text lang cfg_path cfg)
    | some server_cfg ↦ accept server_cfg
  ]

  -- The root and the table of the language.
  unfoldable pub configure : Text → FilePath → Answer (FilePath × ServerConfig)
  unfolding server_named find_servers_toml from_toml to_string
  configure lang arg = canonicalize arg >>= (λ root. find_servers_toml env >>= (λ cfg_path.
      read_to_string cfg_path >>= (λ text.
        or_message (from_toml from_str text)
        >>= (λ cfg. server_named lang cfg_path cfg >>= (λ server_cfg. accept (root, server_cfg))))))

  unfoldable pub prepare : ℕ → List Text → Option (Answer Launch)
  unfolding configure source_files
  prepare fuel [] = some (reject usage)
  prepare fuel (lang ∷ []) = some (reject usage)
  prepare fuel (lang ∷ arg ∷ args) = elim (configure lang arg) [
    | reject why ↦ some (reject why)
    | accept (root, server_cfg) ↦ elim (source_files fs fuel root server_cfg.extensions) [
      | none ↦ none
      | some files ↦ some (
          if is_terminal
          then accept (record { lang = lang; root = root; server_cfg = server_cfg; files = files })
          else reject no_terminal_text)
    ]
  ]

module _ {S : Type 0} (ops : ConnOps S) (host : Host) (now : S → Duration)
    (to_file_path : Url → Option FilePath) where
  -- A server that is not ready in time is dropped.
  unfoldable pub await_server :
      ℕ
      → Launch
      → List Pid
      → LanguageServer S
      → Option (List Pid × Answer (CoreEngine (LanguageServer S)))
  unfolding wait_until_ready drop_server
  await_server fuel l alive server =
      elim (wait_until_ready (probe ops host now to_file_path) fuel server l.files l.lang
        (from_server_config l.server_cfg)) [
          | none ↦ none
          | some (server', err e) ↦ some (drop_server ops host server' alive, reject (to_string e))
          | some (server', ok _) ↦ some (
            alive,
            accept (record {
              engine = Engine.new server';
              can_search = server.supports_workspace_symbol;
            }),
          )
        ]

  unfoldable pub launch :
      ℕ → Launch → List Pid → Option (List Pid × Answer (CoreEngine (LanguageServer S)))
  unfolding await_server start
  launch fuel l alive =
      let (alive', started) = start ops host l.lang l.server_cfg l.root alive in
      elim started [
        | err e ↦ some (alive', reject (to_string e))
        | ok server ↦ await_server fuel l alive' server
      ]

  -- The engine that the worker is given, or why the program ends, with the processes that run.
  unfoldable pub start_up :
      Machine
      → ℕ
      → List Text
      → List Pid
      → Option (List Pid × Answer (CoreEngine (LanguageServer S)))
  unfolding prepare launch
  start_up machine fuel args alive = elim (prepare machine fuel args) [
    | none ↦ none
    | some (reject why) ↦ some (alive, reject why)
    | some (accept l) ↦ launch fuel l alive
  ]
