-- ===== src/Engine/Keeps.antt =====
-- What the calls of the server keep, the engine's calls keep.
use lspgraph.Base.{
  List, [], ◌∷◌, ◌+◌, ◌≡◌, refl, ◌∙◌, sym, subst, Option-cases, Bool-cases, inl, inr,
}
use lspgraph.Base.Map.{get}
use lspgraph.Error.{Result, ok, err, content_modified, Result-cases}
use lspgraph.Graph.{CallHierarchyItem, NodeId, NodeId-discrete, Position, get_node}
use lspgraph.Symbols.{NamedCallable}
use lspgraph.Engine.{
  Engine, FilePath, LspCalls, intern, intern_all, settle, seed, record_answers, ask_server, expand,
  is_expanded,
}

module _ {S : Type 0} (calls : LspCalls S) where
  pub intern_all-server :
      (e : Engine S) (items : List CallHierarchyItem)
      → (intern_all calls e items).0.server ≡ e.server
  unfolding intern_all
  intern_all-server e [] = refl
  intern_all-server e (item ∷ items) = intern_all-server (intern calls e item).0 items

  record_answers-server :
      (e : Engine S) (id : NodeId) (incoming outgoing : List CallHierarchyItem)
      → (record_answers calls e id incoming outgoing).0.server ≡ e.server
  unfolding record_answers
  record_answers-server e id incoming outgoing =
      let e₀ = record e { expansions = e.expansions + 1 } in
      let e₁ = intern_all calls e₀ incoming in
      intern_all-server e₁.0 outgoing ∙ intern_all-server e₀ incoming

  settle-server :
      (e : Engine S) (cand : NamedCallable) (answer : Result (List CallHierarchyItem))
      → (settle calls e cand answer).0.server ≡ e.server
  unfolding settle
  settle-server e cand (err (content_modified m)) = refl
  settle-server e cand (err other) = refl
  settle-server e cand (ok []) = refl
  settle-server e cand (ok (item ∷ rest)) = refl

  module _ (Keeps : S → Type 0) where
    -- Every call of the server keeps the property.
    abbrev pub CallsKeep : Type 0
    CallsKeep =
        ((s : S) (path : FilePath) (pos : Position)
          → Keeps s
          → Keeps (calls.prepare_call_hierarchy s path pos).0)
        × ((s : S) (item : CallHierarchyItem) → Keeps s → Keeps (calls.incoming_calls s item).0)
        × ((s : S) (item : CallHierarchyItem) → Keeps s → Keeps (calls.outgoing_calls s item).0)

    pub seed-Keeps :
        (e : Engine S) (cand : NamedCallable)
        → CallsKeep
        → Keeps e.server
        → Keeps (seed calls e cand).0.server
    unfolding seed
    seed-Keeps e cand keep h = elim (Option-cases (calls.to_file_path cand.uri)) [
      | inl bad ↦ rw (bad, seed) h
      | inr (path, good) ↦
          let p = calls.prepare_call_hierarchy e.server path cand.position in
          rw (good, seed)
            (subst Keeps (sym (settle-server (record e { server = p.0 }) cand p.1))
              (keep.0 e.server path cand.position h))
    ]

    ask_server-Keeps :
        (e : Engine S) (id : NodeId) (item : CallHierarchyItem)
        → CallsKeep
        → Keeps e.server
        → Keeps (ask_server calls e id item).0.server
    unfolding ask_server
    ask_server-Keeps e id item keep h =
        let p = calls.incoming_calls e.server item in
        let h₁ = keep.1 e.server item h in
        let q = calls.outgoing_calls p.0 item in
        let h₂ = keep.2 p.0 item h₁ in
        elim (Result-cases p.1) [
          | inl (x, bad) ↦ rw (bad, ask_server) h₁
          | inr (callers, good) ↦
              rw (good, ask_server)
                (elim (Result-cases q.1) [
                  | inl (x, bad) ↦ rw (bad, ask_server) h₂
                  | inr (callees, fine) ↦
                      rw (fine, ask_server)
                        (subst Keeps
                          (sym
                            (record_answers-server (record e { server = q.0 }) id callers callees))
                          h₂)
                ])
        ]

    pub expand-Keeps :
        (e : Engine S) (id : NodeId)
        → CallsKeep
        → Keeps e.server
        → Keeps (expand calls e id).0.server
    unfolding expand
    expand-Keeps e id keep h = elim (Bool-cases (is_expanded (get_node e.graph id))) [
      | inl done ↦ rw done h
      | inr fresh ↦ rw fresh (elim (Option-cases (get NodeId-discrete id e.items)) [
        | inl missing ↦ rw (missing, expand) h
        | inr (item, there) ↦ rw (there, expand) (ask_server-Keeps e id item keep h)
      ])
    ]
