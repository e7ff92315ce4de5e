-- ===== src/Engine/Memo.antt =====
-- What `expand` of crates/lspgraph-core/src/engine.rs leaves behind, and what it does on a node
-- that is expanded.
use lspgraph.Base.{◌∙◌, Option-cases, ◌+◌, List, ◌≡◌, refl, if_pos, Bool-cases, inl, inr, true}
use lspgraph.Base.Map.{get}
use lspgraph.Error.{Result-cases, Result, ok, err}
use lspgraph.Graph.{
  CallGraph, CallHierarchyItem, Expansion, NodeId, NodeId-discrete, get_node, with_state,
  record_expansion,
}
use lspgraph.Graph.Closed.{IsKnown}
use lspgraph.Engine.{
  is_expanded, Engine, LspCalls, intern_all, record_answers, ask_server, expand, recorded,
}
use lspgraph.Graph.Lookup.{lookup-record_expansion}
use lspgraph.Engine.Valid.{IsValid, intern_all-Interned, server-IsValid}

-- An expansion just recorded for a node that the graph knows is what a lookup finds.
recorded-record_expansion :
    (g : CallGraph) (id : NodeId) (exp : Expansion)
    → IsKnown g id
    → (is_expanded (get_node (record_expansion g id exp) id) ≡ true)
      × (recorded (record_expansion g id exp) id ≡ exp)
unfolding with_state
recorded-record_expansion g id exp k =
    let l = lookup-record_expansion g id id exp in
    let same = NodeId-discrete id id in
    (
      rw (l.2, if_pos same refl _ _)
          (elim (Option-cases (get_node g id)) [
            | inl missing ↦ absurd (k missing)
            | inr (n, there) ↦ rw there refl
          ]),
      rw (l.0 ∙ if_pos same refl _ _, l.1 ∙ if_pos same refl _ _) refl,
    )

-- `expand` on a node that the graph holds as expanded.
expand_again :
    {S : Type 0} (calls : LspCalls S) (e : Engine S) (id : NodeId) (exp : Expansion)
    → is_expanded (get_node e.graph id) ≡ true
    → recorded e.graph id ≡ exp
    → expand calls e id ≡ (e, ok exp)
unfolding expand
expand_again calls e id exp done found = rw (done, found) refl

module _ {S : Type 0} (calls : LspCalls S) where
  record_answers_again :
      (e : Engine S) (id : NodeId) (incoming outgoing : List CallHierarchyItem)
      → IsKnown e.graph id
      → IsValid e
      → let r = record_answers calls e id incoming outgoing in expand calls r.0 id ≡ r
  unfolding record_answers
  record_answers_again e id incoming outgoing k v =
      let e₀ = record e { expansions = e.expansions + 1 } in
      let v₀ : IsValid e₀ = record {
        graph_formed = v.graph_formed;
        graph_closed = v.graph_closed;
        items_fit = v.items_fit;
      } in
      let e₁ = intern_all calls e₀ incoming in
      let h₁ = intern_all-Interned calls e₀ incoming v₀ in
      let e₂ = intern_all calls e₁.0 outgoing in
      let h₂ = intern_all-Interned calls e₁.0 outgoing h₁.valid in
      let exp : Expansion = record { callers = e₁.1; callees = e₂.1 } in
      let l = recorded-record_expansion e₂.0.graph id exp (h₂.grown id (h₁.grown id k)) in
      expand_again calls (record e₂.0 { graph = record_expansion e₂.0.graph id exp }) id exp l.0 l.1

  -- What a run of the two requests leaves: an error changes nothing but the server, an answer is
  -- what the next expansion gives without the server.
  abbrev pub IsSettled : Engine S → NodeId → Engine S × Result Expansion → Type 0
  IsSettled e id (e', err x) =
      (e'.graph ≡ e.graph) × (e'.items ≡ e.items) × (e'.expansions ≡ e.expansions)
  IsSettled e id (e', ok exp) = expand calls e' id ≡ (e', ok exp)

  ask_server-IsSettled :
      (e : Engine S) (id : NodeId) (item : CallHierarchyItem)
      → IsKnown e.graph id
      → IsValid e
      → IsSettled e id (ask_server calls e id item)
  unfolding ask_server
  ask_server-IsSettled e id item k v = elim (Result-cases (calls.incoming_calls e.server item).1) [
    | inl (x, bad) ↦ rw (bad, ask_server) (refl, refl, refl)
    | inr (callers, good) ↦
        rw (good, ask_server)
          (elim (Result-cases
            (calls.outgoing_calls (calls.incoming_calls e.server item).0 item).1) [
              | inl (x, bad) ↦ rw (bad, ask_server) (refl, refl, refl)
              | inr (callees, fine) ↦
                  let s = (calls.outgoing_calls (calls.incoming_calls e.server item).0 item).0 in
                  rw (fine, ask_server)
                    (record_answers_again (record e { server = s }) id callers callees k
                      (server-IsValid calls e s v))
            ])
  ]

  -- In a valid engine, an expansion that fails leaves the graph, the items and the count alone. One
  -- that answers is kept: expanding the node again gives the same answer, asks the server nothing
  -- and changes nothing.
  pub expand-IsSettled :
      (e : Engine S) (id : NodeId) → IsValid e → IsSettled e id (expand calls e id)
  unfolding expand
  expand-IsSettled e id v = elim (Bool-cases (is_expanded (get_node e.graph id))) [
    | inl done ↦ rw done (expand_again calls e id _ done refl)
    | inr fresh ↦ rw fresh (elim (Option-cases (get NodeId-discrete id e.items)) [
      | inl missing ↦ rw (missing, expand) (rw (fresh, missing, expand) refl)
      | inr (item, there) ↦
          rw (there, expand) (ask_server-IsSettled e id item (rw there at (v.items_fit id)).1 v)
    ])
  ]
