-- ===== src/Engine/Valid.antt =====
-- The invariant of the engine, and that every operation keeps it.
use lspgraph.Base.{
  Option-cases, ◌+◌, Option, none, some, List, [], ◌∷◌, Text, ◌≡◌, ◌≢◌, refl, All, if_pos, subst,
  if_neg, Bool-cases, inl, inr, not,
}
use lspgraph.Base.Map.{get, get-insert, get-retain_keys}
use lspgraph.Error.{Result-cases, content_modified, Result, ok, err}
use lspgraph.Graph.{
  CallGraph, CallHierarchyItem, Expansion, Node, NodeId, NodeId-discrete, from_item, get_node,
  in_file, expanded, upsert, record_expansion, remove_file,
}
use lspgraph.Graph.Invalidation.{lookup-remove_file}
use lspgraph.Graph.WellFormed.{
  IsWellFormed, EdgesOwned-IsConsistent, new-IsWellFormed, upsert-IsWellFormed,
  record_expansion-IsWellFormed, remove_file-IsWellFormed,
}
use lspgraph.Graph.Closed.{
  All-mono, IsKnown, IsClosed, upsert-IsKnown, upsert-IsKnown_self, upsert-IsClosed,
  record_expansion-IsKnown, record_expansion-IsClosed, remove_file-IsClosed,
}
use lspgraph.Symbols.{NamedCallable}
use lspgraph.Engine.{
  is_expanded, Engine, LspCalls, new, interned, invalidate_file, intern, intern_all, settle, seed,
  record_answers, ask_server, expand,
}

-- An item that is kept under an id has that id, and the graph knows it.
abbrev pub ItemFits : CallGraph → NodeId → Option CallHierarchyItem → Type 0
ItemFits g id none = Unit
ItemFits g id (some item) = (from_item item ≡ id) × IsKnown g id

-- The graph is well formed, its edges lead to nodes, and every kept item belongs to a node.
pub record IsValid {S : Type 0} (e : Engine S) : Type 0 where
  pub graph_formed : IsWellFormed e.graph
  pub graph_closed : IsClosed e.graph
  pub items_fit : (id : NodeId) → ItemFits e.graph id (get NodeId-discrete id e.items)

pub new-IsValid : {S : Type 0} (s : S) → IsValid (new s)
unfolding get
new-IsValid s = record {
  graph_formed = new-IsWellFormed;
  graph_closed = λ j. (tt, tt);
  items_fit = λ id. tt;
}

ItemFits-mono :
    (g g' : CallGraph) (id : NodeId) (o : Option CallHierarchyItem)
    → (IsKnown g id → IsKnown g' id)
    → ItemFits g id o
    → ItemFits g' id o
ItemFits-mono g g' id none f h = tt
ItemFits-mono g g' id (some item) f h = (h.0, f h.1)

-- A node that is not marked as expanded may be upserted beside the items.
upserted-IsValid :
    {S : Type 0} (e : Engine S) (node : Node)
    → node.state ≢ expanded
    → IsValid e
    → IsValid (record e { graph = upsert e.graph node })
upserted-IsValid e node fresh v = record {
  graph_formed = upsert-IsWellFormed e.graph v.graph_formed node fresh;
  graph_closed = upsert-IsClosed e.graph node v.graph_closed;
  items_fit = λ id.
      ItemFits-mono e.graph (upsert e.graph node) id _ (upsert-IsKnown e.graph node id)
        (v.items_fit id);
}

module _ {S : Type 0} (calls : LspCalls S) where
  pub intern-IsValid :
      (e : Engine S) (item : CallHierarchyItem) → IsValid e → IsValid (intern calls e item).0
  unfolding intern
  intern-IsValid e item v =
      let node = interned calls item in
      let w = upserted-IsValid e node (λ p. cc) v in
      record {
        graph_formed = w.graph_formed;
        graph_closed = w.graph_closed;
        items_fit = λ id.
            rw (get-insert NodeId-discrete (from_item item) id item e.items)
              (elim (NodeId-discrete (from_item item) id) [
                | yes p ↦
                    rw (if_pos _ p) (
                      p,
                      subst (IsKnown (upsert e.graph node)) p (upsert-IsKnown_self e.graph node),
                    )
                | no p ↦ rw (if_neg _ p) (w.items_fit id)
              ]);
      }

  -- What interning a list of items gives: a valid engine that still knows every node, ids that it
  -- knows, and the server and the count untouched.
  pub record Interned (e : Engine S) (r : Engine S × List NodeId) : Type 0 where
    pub valid : IsValid r.0
    pub grown : (j : NodeId) → IsKnown e.graph j → IsKnown r.0.graph j
    pub known : All (IsKnown r.0.graph) r.1
    pub same_server : r.0.server ≡ e.server
    pub same_count : r.0.expansions ≡ e.expansions

  pub intern_all-Interned :
      (e : Engine S) (items : List CallHierarchyItem)
      → IsValid e
      → Interned e (intern_all calls e items)
  unfolding intern_all
  intern_all-Interned e [] v = record {
    valid = v;
    grown = λ j k. k;
    known = tt;
    same_server = refl;
    same_count = refl;
  }
  intern_all-Interned e (item ∷ items) v =
      let node = interned calls item in
      let e' = (intern calls e item).0 in
      let h = intern_all-Interned e' items (intern-IsValid e item v) in
      record {
        valid = h.valid;
        grown = λ j k. h.grown j (upsert-IsKnown e.graph node j k);
        known = (h.grown (from_item item) (upsert-IsKnown_self e.graph node), h.known);
        same_server = h.same_server;
        same_count = h.same_count;
      }

  settle-IsValid :
      (e : Engine S) (cand : NamedCallable) (answer : Result (List CallHierarchyItem))
      → IsValid e
      → IsValid (settle calls e cand answer).0
  unfolding settle
  settle-IsValid e cand (err (content_modified m)) v = upserted-IsValid e _ (λ p. cc) v
  settle-IsValid e cand (err other) v = v
  settle-IsValid e cand (ok []) v = upserted-IsValid e _ (λ p. cc) v
  settle-IsValid e cand (ok (item ∷ rest)) v = intern-IsValid e item v

  pub server-IsValid : (e : Engine S) (s : S) → IsValid e → IsValid (record e { server = s })
  server-IsValid e s v = record {
    graph_formed = v.graph_formed;
    graph_closed = v.graph_closed;
    items_fit = v.items_fit;
  }

  -- Seeding a valid engine leaves a valid engine, whatever the server answers.
  pub seed-IsValid :
      (e : Engine S) (cand : NamedCallable) → IsValid e → IsValid (seed calls e cand).0
  unfolding seed
  seed-IsValid e cand v = elim (Option-cases (calls.to_file_path cand.uri)) [
    | inl bad ↦ rw (bad, seed) v
    | inr (path, good) ↦
        let p = calls.prepare_call_hierarchy e.server path cand.position in
        rw (good, seed)
          (settle-IsValid (record e { server = p.0 }) cand p.1 (server-IsValid e p.0 v))
  ]

  -- Recording the answers for a node that the graph knows keeps the engine valid and knows it still.
  record_answers-IsValid :
      (e : Engine S) (id : NodeId) (incoming outgoing : List CallHierarchyItem)
      → IsKnown e.graph id
      → IsValid e
      → IsValid (record_answers calls e id incoming outgoing).0
  unfolding record_answers
  record_answers-IsValid e id incoming outgoing k v =
      let e₀ = record e { expansions = e.expansions + 1 } in
      let v₀ : IsValid e₀ = record {
        graph_formed = v.graph_formed;
        graph_closed = v.graph_closed;
        items_fit = v.items_fit;
      } in
      let e₁ = intern_all calls e₀ incoming in
      let h₁ = intern_all-Interned e₀ incoming v₀ in
      let e₂ = intern_all calls e₁.0 outgoing in
      let h₂ = intern_all-Interned e₁.0 outgoing h₁.valid in
      let g = e₂.0.graph in
      let exp : Expansion = record { callers = e₁.1; callees = e₂.1 } in
      let up = record_expansion-IsKnown g id exp in
      record {
        graph_formed =
            record_expansion-IsWellFormed g h₂.valid.graph_formed id exp
              (h₂.grown id (h₁.grown id k));
        graph_closed =
            record_expansion-IsClosed g id exp (All-mono _ _ h₂.grown _ h₁.known) h₂.known
              h₂.valid.graph_closed;
        items_fit =
            λ j. ItemFits-mono g (record_expansion g id exp) j _ (up j) (h₂.valid.items_fit j);
      }

  ask_server-IsValid :
      (e : Engine S) (id : NodeId) (item : CallHierarchyItem)
      → IsKnown e.graph id
      → IsValid e
      → IsValid (ask_server calls e id item).0
  unfolding ask_server
  ask_server-IsValid e id item k v = elim (Result-cases (calls.incoming_calls e.server item).1) [
    | inl (x, bad) ↦ rw (bad, ask_server) (server-IsValid e _ v)
    | inr (callers, good) ↦
        rw (good, ask_server)
          (elim (Result-cases
            (calls.outgoing_calls (calls.incoming_calls e.server item).0 item).1) [
              | inl (x, bad) ↦ rw (bad, ask_server) (server-IsValid e _ v)
              | inr (callees, fine) ↦
                  rw (fine, ask_server)
                    (record_answers-IsValid _ id callers callees k (server-IsValid e _ v))
            ])
  ]

  -- Expanding any id in a valid engine leaves a valid engine, whatever the server answers.
  pub expand-IsValid : (e : Engine S) (id : NodeId) → IsValid e → IsValid (expand calls e id).0
  unfolding expand
  expand-IsValid e id v = elim (Bool-cases (is_expanded (get_node e.graph id))) [
    | inl done ↦ rw done v
    | inr fresh ↦ rw fresh (elim (Option-cases (get NodeId-discrete id e.items)) [
      | inl missing ↦ rw (missing, expand) v
      | inr (item, there) ↦
          rw (there, expand) (ask_server-IsValid e id item (rw there at (v.items_fit id)).1 v)
    ])
  ]

-- Invalidating any file in a valid engine leaves a valid engine.
pub invalidate_file-IsValid :
    {S : Type 0} (e : Engine S) (uri : Text) → IsValid e → IsValid (invalidate_file e uri)
unfolding invalidate_file
invalidate_file-IsValid e uri v =
    let owned = EdgesOwned-IsConsistent e.graph v.graph_formed.consistent in
    record {
      graph_formed = remove_file-IsWellFormed e.graph v.graph_formed uri;
      graph_closed = remove_file-IsClosed e.graph owned uri v.graph_closed;
      items_fit = λ id.
          rw (get-retain_keys NodeId-discrete (λ k. not (in_file uri k)) id e.items)
            (elim (Bool-cases (in_file uri id)) [
              | inl gone ↦ rw gone tt
              | inr kept ↦ rw kept (
                  ItemFits-mono e.graph (remove_file e.graph uri) id _
                    (λ k. rw ((lookup-remove_file e.graph uri id owned).0, kept) k)
                    (v.items_fit id))
            ]);
    }
