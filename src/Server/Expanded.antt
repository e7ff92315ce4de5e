-- ===== src/Server/Expanded.antt =====
-- An expansion by the engine (crates/lspgraph-core/src/engine.rs) from the bytes that the language
-- server sends: `expand` over the calls of crates/lspgraph-core/src/server.rs over the connection of
-- crates/lspgraph-core/src/transport/mod.rs.
use lspgraph.Base.{
  ℕ, ◌+◌, false, Option, some, List, [], ◌∷◌, Bytes, Text, codes, ◌≡◌, refl, sym, subst, ◌∙◌, ap,
  arith, map, if_pos,
}
use lspgraph.Base.Map.{get}
use lspgraph.Error.{Result, ok, err}
use lspgraph.Json.{Value}
use lspgraph.Symbols.{Url}
use lspgraph.Graph.{
  CallHierarchyItem, Expansion, NodeId, NodeId-discrete, from_item, get_node, callers_of,
  callees_of,
}
use lspgraph.Graph.Lookup.{lookup-record_expansion}
use lspgraph.Engine.{
  Engine, FilePath, LspCalls, is_expanded, intern, intern_all, record_answers, ask_server, expand,
}
use lspgraph.Engine.Keeps.{intern_all-server}
use lspgraph.Transport.{WriteEnd}
use lspgraph.Transport.Link
use lspgraph.Transport.Link.{Link}
use lspgraph.Transport.Exchange.{IsReady, AreWhole, request-frames}
use lspgraph.Server.{Child, Host, LanguageServer, request_timeout, json, unwrap_calls}
use lspgraph.Server.Calls.{
  lsp_calls, settled_or_again, retrying, request_retrying_content_modified, calls_by,
  incoming_calls, outgoing_calls,
}
use lspgraph.Server.Linked.{link_ops, answer_in}

module _ {S : Type 0} (calls : LspCalls S) where
  intern_all-ids :
      (e : Engine S) (items : List CallHierarchyItem)
      → (intern_all calls e items).1 ≡ map from_item items
  unfolding intern_all intern
  intern_all-ids e [] = refl
  intern_all-ids e (item ∷ items) =
      ap (λ (ids : List NodeId). from_item item ∷ ids)
        (intern_all-ids (intern calls e item).0 items)

  -- The expansion whose callers and callees are these items.
  abbrev pub expansion_of : List CallHierarchyItem → List CallHierarchyItem → Expansion
  expansion_of incoming outgoing = record {
    callers = map from_item incoming;
    callees = map from_item outgoing;
  }

  -- An engine that has expanded a node to these items, and what it gave.
  pub record Expanded (id : NodeId) (incoming outgoing : List CallHierarchyItem)
      (r : Engine S × Result Expansion) : Type 0 where
    pub answer : r.1 ≡ ok (expansion_of incoming outgoing)
    pub callers : callers_of r.0.graph id ≡ some (map from_item incoming)
    pub callees : callees_of r.0.graph id ≡ some (map from_item outgoing)

  record_answers-Expanded :
      (e : Engine S) (id : NodeId) (incoming outgoing : List CallHierarchyItem)
      → let r = record_answers calls e id incoming outgoing in
        Expanded id incoming outgoing r × (r.0.server ≡ e.server)
  unfolding record_answers
  record_answers-Expanded e id incoming outgoing =
      let e₀ = record e { expansions = e.expansions + 1 } in
      let r₁ = intern_all calls e₀ incoming in
      let r₂ = intern_all calls r₁.0 outgoing in
      let exp : Expansion = record { callers = r₁.1; callees = r₂.1 } in
      let l = lookup-record_expansion r₂.0.graph id id exp in
      let same = NodeId-discrete id id in
      let ins = intern_all-ids e₀ incoming in
      let outs = intern_all-ids r₁.0 outgoing in
      (
        record {
          answer = λ i. ok (record { callers = ins i; callees = outs i });
          callers = l.0 ∙ if_pos same refl _ _ ∙ ap some ins;
          callees = l.1 ∙ if_pos same refl _ _ ∙ ap some outs;
        },
        intern_all-server calls r₁.0 outgoing ∙ intern_all-server calls e₀ incoming,
      )

  -- `expand` where the server answers both requests.
  expand-Expanded :
      (e : Engine S) (id : NodeId) (item : CallHierarchyItem)
      (incoming outgoing : List CallHierarchyItem)
      → is_expanded (get_node e.graph id) ≡ false
      → get NodeId-discrete id e.items ≡ some item
      → let r = calls.incoming_calls e.server item in
        r.1 ≡ ok incoming
        → let q = calls.outgoing_calls r.0 item in
          q.1 ≡ ok outgoing
          → let x = expand calls e id in Expanded id incoming outgoing x × (x.0.server ≡ q.0)
  unfolding expand ask_server
  expand-Expanded e id item incoming outgoing fresh there ins outs =
      let q = calls.outgoing_calls (calls.incoming_calls e.server item).0 item in
      rw (fresh, there, expand, ins, ask_server, outs, ask_server)
        (record_answers-Expanded (record e { server = q.0 }) id incoming outgoing)

module _ (to_vec : Value → Bytes) (from_slice : Bytes → Option Value)
    (wires : Child → List WriteEnd × List (List Bytes)) (host : Host) where
  -- A first request that is answered is the only one.
  request_retrying-answered :
      (server : LanguageServer Link) (method : Text) (params v : Value)
      → let r = Link.request to_vec from_slice server.conn method params request_timeout in
        r.1 ≡ ok v
        → request_retrying_content_modified
            (link_ops to_vec from_slice wires)
            host
            server
            method
            params
          ≡ (record server { conn = r.0 }, ok v)
  unfolding request_retrying_content_modified retrying settled_or_again
  request_retrying-answered server method params v good =
      let ops = link_ops to_vec from_slice wires in
      let r = Link.request to_vec from_slice server.conn method params request_timeout in
      let give : Link × Result Value → LanguageServer Link × Result Value =
        λ (l, answer). (record server { conn = l }, answer) in
      ap (λ a. give (settled_or_again ops host r.0 a (retrying ops host 1 r.0 method params))) good

  -- A call whose first request is answered.
  record Called (server : LanguageServer Link) (field : Text) (v : Value)
      (turns : List (List Bytes)) (r : LanguageServer Link × Result (List CallHierarchyItem))
      : Type 0 where
    items : r.1 ≡ ok (unwrap_calls host v field)
    ready : IsReady r.0.conn
    left : r.0.conn.turns ≡ turns
    number : r.0.conn.conn.next_id ≡ server.conn.conn.next_id + 1

  calls_by-Called :
      (server : LanguageServer Link) (method field : Text) (item : CallHierarchyItem) (v : Value)
      (xs ps : List Bytes) (turns : List (List Bytes))
      → IsReady server.conn
      → server.conn.turns ≡ xs ∷ turns
      → AreWhole xs ps
      → answer_in from_slice method (server.conn.conn.next_id + 1) ps ≡ ok v
      → Called server field v turns
          (calls_by (link_ops to_vec from_slice wires) host method field server item)
  unfolding calls_by
  calls_by-Called server method field item v xs ps turns ready h whole answered =
      let params = json ((codes "item", host.item_value item) ∷ []) in
      let f =
        request-frames to_vec from_slice server.conn method params request_timeout turns xs ps ready
          h whole in
      let once = request_retrying-answered server method params v (f.result ∙ answered) in
      let read : LanguageServer Link × Result Value
          → LanguageServer Link × Result (List CallHierarchyItem) =
        λ r. elim r.1 [ err e ↦ (r.0, err e) | ok v ↦ (r.0, ok (unwrap_calls host v field)) ] in
      subst (Called server field v turns) (sym (ap read once))
        (record { items = refl; ready = f.ready; left = f.turns; number = f.number })

  -- An expansion of a node that is not expanded, whose item the engine holds, on a link that is ready
  -- and whose turns are whole frames however they are cut: where the frames answer the first two
  -- numbers, it gives the nodes of the callers that the first answer names and of the callees that
  -- the second names, in their order; the graph holds both under the node; and the link is ready
  -- again, with two numbers drawn and the turns that are left.
  pub expand-frames :
      (to_file_path : Url → Option FilePath) (debug_kind : ℕ → Text)
      (e : Engine (LanguageServer Link)) (id : NodeId) (item : CallHierarchyItem) (v w : Value)
      (xs ys ps qs : List Bytes) (turns : List (List Bytes))
      → is_expanded (get_node e.graph id) ≡ false
      → get NodeId-discrete id e.items ≡ some item
      → IsReady e.server.conn
      → e.server.conn.turns ≡ xs ∷ ys ∷ turns
      → AreWhole xs ps
      → AreWhole ys qs
      → let n = e.server.conn.conn.next_id in
        answer_in from_slice (codes "callHierarchy/incomingCalls") (n + 1) ps ≡ ok v
        → answer_in from_slice (codes "callHierarchy/outgoingCalls") (n + 2) qs ≡ ok w
        → let calls = lsp_calls (link_ops to_vec from_slice wires) host to_file_path debug_kind in
          let r = expand calls e id in
          Expanded calls id
            (unwrap_calls host v (codes "from"))
            (unwrap_calls host w (codes "to"))
            r
          × IsReady r.0.server.conn
          × (r.0.server.conn.turns ≡ turns)
          × (r.0.server.conn.conn.next_id ≡ n + 2)
  unfolding incoming_calls outgoing_calls
  expand-frames to_file_path debug_kind e id item v w xs ys ps qs turns fresh there ready h left
        right a b =
      let ops = link_ops to_vec from_slice wires in
      let calls = lsp_calls ops host to_file_path debug_kind in
      let callers_method = codes "callHierarchy/incomingCalls" in
      let callees_method = codes "callHierarchy/outgoingCalls" in
      let first =
        calls_by-Called e.server callers_method (codes "from") item v xs ps (ys ∷ turns) ready h
          left a in
      let between = (calls.incoming_calls e.server item).0 in
      let number : e.server.conn.conn.next_id + 2 ≡ between.conn.conn.next_id + 1 =
        omega (arith, first.number) in
      let second =
        calls_by-Called between callees_method (codes "to") item w ys qs turns first.ready
          first.left right (ap (λ k. answer_in from_slice callees_method k qs) (sym number) ∙ b) in
      let done =
        expand-Expanded calls e id item (unwrap_calls host v (codes "from"))
          (unwrap_calls host w (codes "to")) fresh there first.items second.items in
      let server = sym done.1 in
      (
        done.0,
        subst (λ (s : LanguageServer Link). IsReady s.conn) server second.ready,
        subst (λ (s : LanguageServer Link). s.conn.turns ≡ turns) server second.left,
        subst (λ (s : LanguageServer Link). s.conn.conn.next_id ≡ e.server.conn.conn.next_id + 2)
            server (second.number ∙ sym number),
      )
