-- ===== src/Server.antt =====
-- crates/lspgraph-core/src/server.rs: the process of a language server and the calls that the engine
-- needs. A process is its number, and the processes that run are a list. The connection, the spawning
-- of a process and the conversions of `serde_json`, `lsp_types` and `url` are parameters.
pub mod Calls
pub mod Retry
pub mod Lifecycle
pub mod Probe
pub mod Linked
pub mod Expanded
use lspgraph.Base.{
  ℕ, zero, suc, Bool, true, false, not, ◌==◌, Option, none, some, List, [], ◌∷◌, Text, codes,
  retain, if◌then◌else◌,
}
use lspgraph.Error
use lspgraph.Error.{Error, Result, ok, err, Duration, from_secs, from_millis}
use lspgraph.Json
use lspgraph.Json.{Value, Fields, Items, as_array, ◌>>=◌}
use lspgraph.Config.{ServerConfig, command}
use lspgraph.Graph.{CallHierarchyItem, Position}
use lspgraph.Symbols.{CharTables, Children, SymbolMatch, Url}
use lspgraph.Symbols.Workspace.{parse_workspace_symbols}
use lspgraph.Engine.{FilePath, LspCalls}

abbrev pub Pid : Type 0
Pid = ℕ

abbrev pub request_timeout : Duration
request_timeout = from_secs 60

abbrev pub retry_delay : Duration
retry_delay = from_millis 150

-- A child that was spawned, and which of its pipes it has.
pub record Child : Type 0 where
  pub pid : Pid
  pub has_stdout : Bool
  pub has_stdin : Bool

-- `Connection` and the clock.
pub record ConnOps (S : Type 0) : Type 0 where
  pub connect : Child → S
  pub request : S → Text → Value → Duration → S × Result Value
  pub notify : S → Text → Value → S × Result {0} Unit
  pub sleep : S → Duration → S

-- Spawning, the files, and the conversions of values.
pub record Host : Type 0 where
  pub spawn : Text → List Text → FilePath → Result Child
  pub process_id : ℕ
  pub read_to_string : FilePath → Result Text
  pub path_to_uri : FilePath → Url
  pub parse_url : Text → Option Url
  pub tables : CharTables
  pub items_of : Value → Result (List CallHierarchyItem)
  pub item_of : Value → Option CallHierarchyItem
  pub item_value : CallHierarchyItem → Value
  pub position_value : Position → Value
  pub symbols_of : Value → Option Children

pub record LanguageServer (S : Type 0) : Type 0 where
  pub name : Text
  pub root : FilePath
  pub conn : S
  pub child : Option Pid
  pub supports_workspace_symbol : Bool

-- `kill` and `wait` on one process.
unfoldable pub kill : Pid → List Pid → List Pid
unfolding retain
kill pid alive = retain (λ p. not (p == pid)) alive

-- `kill_and_reap`, and the `Drop` of the server and of the guard.
unfoldable pub kill_and_reap : Option Pid → List Pid → Option Pid × List Pid
unfolding kill
kill_and_reap none alive = (none, alive)
kill_and_reap (some pid) alive = (none, kill pid alive)

abbrev pub object : List (Text × Value) → Fields
object [] = Fields.end
object ((k, v) ∷ fs) = Fields.field k v (object fs)

abbrev pub json : List (Text × Value) → Value
json fs = Value.obj (object fs)

abbrev pub flag : Text → Bool → Value
flag k b = json ((k, Value.bool b) ∷ [])

-- A provider that is there, and is neither `false` nor null.
abbrev pub is_offered : Option Value → Bool
is_offered none = false
is_offered (some Value.null) = false
is_offered (some (Value.bool false)) = false
is_offered (some v) = true

unfoldable pub offers : Value → Text → Bool
unfolding Json.get
offers caps provider =
    is_offered (Json.get caps (codes "capabilities") >>= (λ c. Json.get c provider))

abbrev pub or_no_calls : Option Value → List Value → List Value
or_no_calls none rest = rest
or_no_calls (some v) rest = v ∷ rest

module _ (host : Host) where
  open host use {process_id, path_to_uri, item_of}

  abbrev pub initialize_params : FilePath → Value
  initialize_params root =
      let uri = Value.str (path_to_uri root) in
      json (
        (codes "processId", Value.num (Json.Number.pos_int process_id))
        ∷ (codes "rootUri", uri)
        ∷ (
          codes "workspaceFolders",
          Value.arr (
              Items.cons (json ((codes "uri", uri) ∷ (codes "name", Value.str (codes "root")) ∷ []))
                Items.nil),
        )
        ∷ (
          codes "capabilities",
          json (
              (codes "window", flag (codes "workDoneProgress") true)
              ∷ (
                codes "textDocument",
                json (
                    (codes "callHierarchy", flag (codes "dynamicRegistration") false)
                    ∷ (
                      codes "documentSymbol",
                      flag (codes "hierarchicalDocumentSymbolSupport") true,
                    )
                    ∷ []),
              )
              ∷ (
                codes "workspace",
                json (
                    (codes "workspaceFolders", Value.bool true)
                    ∷ (codes "symbol", flag (codes "dynamicRegistration") false)
                    ∷ []),
              )
              ∷ []),
        )
        ∷ [])

  abbrev pub document_params : FilePath → Value
  document_params path = json ((codes "uri", Value.str (path_to_uri path)) ∷ [])

  -- The two `filter_map`s of `unwrap_calls`.
  unfoldable pub endpoints : Text → List Value → List CallHierarchyItem
  unfolding Json.get
  endpoints field [] = []
  endpoints field (c ∷ cs) =
      let rest = endpoints field cs in
      elim (Json.get c field >>= item_of) [ none ↦ rest | some item ↦ item ∷ rest ]

  unfoldable pub unwrap_calls : Value → Text → List CallHierarchyItem
  unfolding endpoints as_array
  unwrap_calls v field = elim (as_array v) [ none ↦ [] | some arr ↦ endpoints field arr ]
