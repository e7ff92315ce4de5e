-- ===== src/Engine.antt =====
-- crates/lspgraph-core/src/engine.rs: lazy, memoized expansion of the call graph.
pub mod Valid
pub mod Memo
pub mod Seeded
pub mod Forgets
pub mod Session
pub mod Keeps
use lspgraph.Base.{
  ℕ, ◌+◌, Bool, not, Option, none, some, List, [], ◌∷◌, map, Text, codes, if◌then◌else◌,
}
use lspgraph.Base.Map.{get, insert, retain_keys}
use lspgraph.Error.{Error, content_modified, Result, ok, err}
use lspgraph.Graph.{
  CallGraph, CallHierarchyItem, Expansion, Node, NodeId, NodeId-discrete, NodeState, Position,
  callees_of, callers_of, expanded, from_item, get_node, in_file, no_call_hierarchy_item,
  record_expansion, remove_file, transient_content_modified, unexpanded, unresolved, upsert,
}
use lspgraph.Graph
use lspgraph.Symbols.{NamedCallable, Url}

abbrev pub FilePath : Type 0
FilePath = Text

-- What the engine needs of a language server in a state `S`, and of the crates `url` and
-- `lsp_types`: `Url::to_file_path` and the debug print of a symbol kind.
pub record LspCalls (S : Type 0) : Type 0 where
  pub prepare_call_hierarchy : S → FilePath → Position → S × Result (List CallHierarchyItem)
  pub incoming_calls : S → CallHierarchyItem → S × Result (List CallHierarchyItem)
  pub outgoing_calls : S → CallHierarchyItem → S × Result (List CallHierarchyItem)
  pub to_file_path : Url → Option FilePath
  pub debug_kind : ℕ → Text

pub record Engine (S : Type 0) : Type 0 where
  pub server : S
  pub graph : CallGraph
  pub items : List (NodeId × CallHierarchyItem)
  pub expansions : ℕ

abbrev pub new : {S : Type 0} → S → Engine S
new server = record { server = server; graph = Graph.new; items = []; expansions = 0 }

-- `shutdown`, over the server's.
unfoldable pub shutdown : {S : Type 0} → (S → S × Result {0} Unit) → Engine S → S × Result {0} Unit
shutdown stop e = stop e.server

unfoldable pub invalidate_file : {S : Type 0} → Engine S → Text → Engine S
invalidate_file e uri = record e {
  graph = remove_file e.graph uri;
  items = retain_keys (λ k. not (in_file uri k)) e.items;
}

-- The id and the node under which a candidate is recorded that does not resolve.
abbrev pub unresolved_id : NamedCallable → NodeId
unresolved_id cand = record {
  uri = cand.uri;
  line = cand.position.line;
  character = cand.position.character;
  name = cand.name;
}

abbrev pub unresolved_node : NamedCallable → Graph.UnresolvedReason → Node
unresolved_node cand reason = record {
  id = unresolved_id cand;
  kind_name = codes "Unknown";
  detail = none;
  state = unresolved reason;
}

abbrev pub or_empty : Option (List NodeId) → List NodeId
or_empty none = []
or_empty (some ids) = ids

-- The expansion that the graph has recorded.
abbrev pub recorded : CallGraph → NodeId → Expansion
recorded g id = record {
  callers = or_empty (callers_of g id);
  callees = or_empty (callees_of g id);
}

-- Whether the graph holds the node as expanded.
abbrev pub state_is_expanded : NodeState → Bool
state_is_expanded expanded = Bool.true
state_is_expanded s = Bool.false

abbrev pub is_expanded : Option Node → Bool
is_expanded none = Bool.false
is_expanded (some n) = state_is_expanded n.state

module _ {S : Type 0} (calls : LspCalls S) where
  open calls use {prepare_call_hierarchy, incoming_calls, outgoing_calls, to_file_path, debug_kind}

  abbrev pub interned : CallHierarchyItem → Node
  interned item = record {
    id = from_item item;
    kind_name = debug_kind item.kind;
    detail = item.detail;
    state = unexpanded;
  }

  unfoldable pub intern : Engine S → CallHierarchyItem → Engine S × NodeId
  intern e item = (
    record e {
      graph = upsert e.graph (interned item);
      items = insert NodeId-discrete (from_item item) item e.items;
    },
    from_item item,
  )

  -- `items.iter().map(|i| self.intern(i)).collect()`.
  unfoldable pub intern_all : Engine S → List CallHierarchyItem → Engine S × List NodeId
  unfolding intern
  intern_all e [] = (e, [])
  intern_all e (item ∷ items) =
      let (e', id) = intern e item in let (e'', ids) = intern_all e' items in (e'', id ∷ ids)

  -- What `seed` does with the answer of `prepareCallHierarchy`.
  unfoldable pub settle :
      Engine S → NamedCallable → Result (List CallHierarchyItem) → Engine S × Result (Option NodeId)
  unfolding intern
  settle e cand (err (content_modified m)) = (
    record e { graph = upsert e.graph (unresolved_node cand transient_content_modified) },
    ok none,
  )
  settle e cand (err other) = (e, err other)
  settle e cand (ok []) =
      (record e { graph = upsert e.graph (unresolved_node cand no_call_hierarchy_item) }, ok none)
  settle e cand (ok (item ∷ rest)) = let (e', id) = intern e item in (e', ok (some id))

  unfoldable pub seed : Engine S → NamedCallable → Engine S × Result (Option NodeId)
  unfolding settle
  seed e cand = elim (to_file_path cand.uri) [
    | none ↦ (e, ok none)
    | some path ↦
        let (server, answer) = prepare_call_hierarchy e.server path cand.position in
        settle (record e { server = server }) cand answer
  ]

  -- The part of `expand` behind both answers of the server.
  unfoldable pub record_answers :
      Engine S
      → NodeId
      → List CallHierarchyItem
      → List CallHierarchyItem
      → Engine S × Result Expansion
  unfolding intern_all
  record_answers e id incoming outgoing =
      let (e₁, callers) = intern_all (record e { expansions = e.expansions + 1 }) incoming in
      let (e₂, callees) = intern_all e₁ outgoing in
      let exp : Expansion = record { callers = callers; callees = callees } in
      (record e₂ { graph = record_expansion e₂.graph id exp }, ok exp)

  -- The two requests; the first error ends the expansion.
  unfoldable pub ask_server : Engine S → NodeId → CallHierarchyItem → Engine S × Result Expansion
  unfolding record_answers
  ask_server e id item =
      let (s₁, incoming) = incoming_calls e.server item in
      elim incoming [
        | err x ↦ (record e { server = s₁ }, err x)
        | ok callers ↦
            let (s₂, outgoing) = outgoing_calls s₁ item in
            elim outgoing [
              | err x ↦ (record e { server = s₂ }, err x)
              | ok callees ↦ record_answers (record e { server = s₂ }) id callers callees
            ]
      ]

  unfoldable pub expand : Engine S → NodeId → Engine S × Result Expansion
  unfolding ask_server
  expand e id =
      if is_expanded (get_node e.graph id)
      then (e, ok (recorded e.graph id))
      else (elim (get NodeId-discrete id e.items) [
        | none ↦ (e, ok (record { callers = []; callees = [] }))
        | some item ↦ ask_server e id item
      ])
