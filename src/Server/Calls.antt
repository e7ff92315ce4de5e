-- ===== src/Server/Calls.antt =====
-- The methods of `LanguageServer` in crates/lspgraph-core/src/server.rs.
use lspgraph.Base.{
  ℕ, zero, suc, not, ◌&&◌, Option, none, some, List, [], ◌∷◌, Text, codes, if◌then◌else◌,
}
use lspgraph.Error.{content_modified, Error, Result, ok, err, Duration, from_secs}
use lspgraph.Json.{Value, is_null}
use lspgraph.Config.{ServerConfig, command}
use lspgraph.Graph.{CallHierarchyItem, Position}
use lspgraph.Symbols.{Children, SymbolMatch, Url}
use lspgraph.Symbols.Workspace.{parse_workspace_symbols}
use lspgraph.Engine.{FilePath, LspCalls}
use lspgraph.Server.{
  Pid, Child, ConnOps, Host, LanguageServer, request_timeout, retry_delay, kill_and_reap, kill,
  json, offers, initialize_params, document_params, unwrap_calls,
}

module _ {S : Type 0} (ops : ConnOps S) (host : Host) where
  open ops use {connect, request, notify, sleep}

  -- The end of `start`, behind the capability gate.
  unfoldable pub introduce : Text → FilePath → Child → S → Value → Result (LanguageServer S)
  unfolding offers
  introduce name root child conn caps =
      let (conn', told) = notify conn (codes "initialized") (json []) in
      elim told [
        | err e ↦ err e
        | ok _ ↦ ok (record {
          name = name;
          root = root;
          conn = conn';
          child = some child.pid;
          supports_workspace_symbol = offers caps (codes "workspaceSymbolProvider");
        })
      ]

  -- The part of `start` that the guard watches over.
  unfoldable pub handshake : Text → FilePath → Child → Result (LanguageServer S)
  unfolding introduce offers
  handshake name root child =
      if not (child.has_stdout && child.has_stdin)
      then err Error.server_exited
      else (let (conn, answer) =
            request (connect child) (codes "initialize") (initialize_params host root)
              (from_secs 180) in
          elim answer [
            | err e ↦ err e
            | ok caps ↦
                if offers caps (codes "callHierarchyProvider")
                then introduce name root child conn caps
                else err (Error.no_call_hierarchy name)
          ])

  -- `start`, with the processes that run. The guard kills the child where the handshake fails.
  unfoldable pub start :
      Text → ServerConfig → FilePath → List Pid → List Pid × Result (LanguageServer S)
  unfolding handshake command kill_and_reap kill
  start name cfg root alive =
      let (prog, args) = command cfg in
      elim (host.spawn prog args root) [
        | err e ↦ (alive, err e)
        | ok child ↦ elim (handshake name root child) [
          | err e ↦ ((kill_and_reap (some child.pid) (child.pid ∷ alive)).1, err e)
          | ok server ↦ (child.pid ∷ alive, ok server)
        ]
      ]

  -- A call that the connection answers.
  unfoldable pub requested :
      LanguageServer S → Text → Value → Duration → LanguageServer S × Result Value
  requested server method params timeout =
      let (conn, answer) = request server.conn method params timeout in
      (record server { conn = conn }, answer)

  unfoldable pub open_file : LanguageServer S → FilePath → Text → LanguageServer S × Result {0} Unit
  open_file server path language_id = elim (host.read_to_string path) [
    | err e ↦ (server, err e)
    | ok text ↦
        let (conn, told) = notify server.conn (codes "textDocument/didOpen") (
          json (
            (
              codes "textDocument",
              json (
                  (codes "uri", Value.str (host.path_to_uri path))
                  ∷ (codes "languageId", Value.str language_id)
                  ∷ (codes "version", Value.num (lspgraph.Json.Number.pos_int 1))
                  ∷ (codes "text", Value.str text)
                  ∷ []),
            )
            ∷ [])) in
        (record server { conn = conn }, told)
  ]

  -- No symbols, and symbols of a form that is not read, are an empty list.
  abbrev pub symbols_or_none : Option Children → Children
  symbols_or_none none = Children.nil
  symbols_or_none (some symbols) = symbols

  unfoldable pub document_symbols : LanguageServer S → FilePath → LanguageServer S × Result Children
  unfolding requested
  document_symbols server path =
      let (server', answer) =
        requested server (codes "textDocument/documentSymbol")
          (json ((codes "textDocument", document_params host path) ∷ [])) request_timeout in
      elim answer [
        | err e ↦ (server', err e)
        | ok v ↦
            if is_null v
            then (server', ok Children.nil)
            else (server', ok (symbols_or_none (host.symbols_of v)))
      ]

  unfoldable pub workspace_symbols :
      LanguageServer S → Text → LanguageServer S × Result (List SymbolMatch)
  unfolding requested parse_workspace_symbols
  workspace_symbols server query =
      if server.supports_workspace_symbol
      then (let (server', answer) =
            requested server (codes "workspace/symbol")
              (json ((codes "query", Value.str query) ∷ [])) request_timeout in
          elim answer [
            | err e ↦ (server', err e)
            | ok v ↦ (server', ok (parse_workspace_symbols host.tables host.parse_url v))
          ])
      else (server, ok [])

  -- What the loop gives on an answer, where `again` is what it gives when it goes on.
  unfoldable pub settled_or_again : S → Result Value → S × Result Value → S × Result Value
  settled_or_again conn (err (content_modified m)) again = again
  settled_or_again conn other again = (conn, other)

  -- The loop of `request_retrying_content_modified` with `n` retries left.
  unfoldable pub retrying : ℕ → S → Text → Value → S × Result Value
  unfolding settled_or_again
  retrying zero conn method params = request conn method params request_timeout
  retrying (suc n) conn method params =
      let (conn', answer) = request conn method params request_timeout in
      settled_or_again conn' answer (retrying n (sleep conn' retry_delay) method params)

  unfoldable pub request_retrying_content_modified :
      LanguageServer S → Text → Value → LanguageServer S × Result Value
  unfolding retrying
  request_retrying_content_modified server method params =
      let (conn, answer) = retrying 2 server.conn method params in
      (record server { conn = conn }, answer)

  unfoldable pub prepare_call_hierarchy :
      LanguageServer S → FilePath → Position → LanguageServer S × Result (List CallHierarchyItem)
  unfolding request_retrying_content_modified
  prepare_call_hierarchy server path pos =
      let (server', answer) =
        request_retrying_content_modified server (codes "textDocument/prepareCallHierarchy") (
          json (
            (codes "textDocument", document_params host path)
            ∷ (codes "position", host.position_value pos)
            ∷ [])) in
      elim answer [
        | err e ↦ (server', err e)
        | ok v ↦ if is_null v then (server', ok []) else (server', host.items_of v)
      ]

  -- `incoming_calls` and `outgoing_calls`, by the method and the field of the endpoint.
  unfoldable pub calls_by :
      Text
      → Text
      → LanguageServer S
      → CallHierarchyItem
      → LanguageServer S × Result (List CallHierarchyItem)
  unfolding request_retrying_content_modified unwrap_calls
  calls_by method field server item =
      let (server', answer) =
        request_retrying_content_modified server method
          (json ((codes "item", host.item_value item) ∷ [])) in
      elim answer [ err e ↦ (server', err e) | ok v ↦ (server', ok (unwrap_calls host v field)) ]

  unfoldable pub incoming_calls :
      LanguageServer S → CallHierarchyItem → LanguageServer S × Result (List CallHierarchyItem)
  unfolding calls_by
  incoming_calls = calls_by (codes "callHierarchy/incomingCalls") (codes "from")

  unfoldable pub outgoing_calls :
      LanguageServer S → CallHierarchyItem → LanguageServer S × Result (List CallHierarchyItem)
  unfolding calls_by
  outgoing_calls = calls_by (codes "callHierarchy/outgoingCalls") (codes "to")

  -- The answers of both messages are ignored.
  unfoldable pub shutdown : LanguageServer S → List Pid → LanguageServer S × List Pid
  unfolding kill_and_reap kill
  shutdown server alive =
      let (conn, _) = request server.conn (codes "shutdown") Value.null (from_secs 5) in
      let (conn', _) = notify conn (codes "exit") Value.null in
      let (child, alive') = kill_and_reap server.child alive in
      (record server { conn = conn'; child = child }, alive')

  -- `Drop`.
  unfoldable pub drop_server : LanguageServer S → List Pid → List Pid
  unfolding kill_and_reap kill
  drop_server server alive = (kill_and_reap server.child alive).1

  -- What the engine needs of a server, from the server.
  abbrev pub lsp_calls : (Url → Option FilePath) → (ℕ → Text) → LspCalls (LanguageServer S)
  lsp_calls to_file_path debug_kind = record {
    prepare_call_hierarchy = prepare_call_hierarchy;
    incoming_calls = incoming_calls;
    outgoing_calls = outgoing_calls;
    to_file_path = to_file_path;
    debug_kind = debug_kind;
  }
