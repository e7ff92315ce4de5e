-- ===== src/Tests/Expanded.antt =====
-- An expansion from bytes, at a concrete input.
use lspgraph.Base.{◌≡◌, refl, Option, none, some, [], ◌∷◌, Bytes, Text, codes}
use lspgraph.Base.Map.{get}
use lspgraph.Json
use lspgraph.Json.{Value}
use lspgraph.Graph.{CallHierarchyItem, from_item}
use lspgraph.Engine
use lspgraph.Engine.{Engine, expand}
use lspgraph.Transport.Link.{Link, connect}
use lspgraph.Transport.Exchange.{IsReady}
use lspgraph.Server.{Host, LanguageServer}
use lspgraph.Server.Calls.{lsp_calls}
use lspgraph.Server.Linked.{link_ops}
use lspgraph.Server.Expanded.{Expanded, expand-frames}
use lspgraph.Tests.Linked.{
  to_vec, with_id, body, pieces, wires, host, server, empty-AreWhole, body-AreWhole,
}

abbrev one_call : Text → Value
one_call field = Value.arr (
    Json.Items.cons (Value.obj (Json.Fields.field field Value.null Json.Fields.end)) Json.Items.nil)

-- One caller in the first answer, and one callee in the second.
abbrev from_slice : Bytes → Option Value
from_slice [] = some (with_id 1 (codes "result") (one_call (codes "from")))
from_slice (b ∷ bs) = some (with_id 2 (codes "result") (one_call (codes "to")))

abbrev item : CallHierarchyItem
item = record {
  name = codes "main";
  kind = 12;
  detail = none;
  uri = codes "file:///main.rs";
  selection_start = record { line = 1; character = 2 };
  others = [];
}

abbrev other : CallHierarchyItem
other = record item { name = codes "send" }

abbrev one_item : Host
one_item = record host { item_of = λ v. some other }

abbrev link : Link
link = connect [] (pieces [] ∷ pieces body ∷ [])

link-IsReady : IsReady link
unfolding get
link-IsReady = record {
  reading = refl;
  decoder = refl;
  fresh = λ id h. (refl, refl);
  writes = refl;
}

abbrev engine : Engine (LanguageServer Link)
engine = record (Engine.new (record server { conn = link })) { items = (from_item item, item) ∷ [] }

expand-frames_example :
    let calls = lsp_calls (link_ops to_vec from_slice wires) one_item (λ url. some url) (λ n. []) in
    let r = expand calls engine (from_item item) in
    Expanded calls (from_item item) (other ∷ []) (other ∷ []) r
    × IsReady r.0.server.conn
    × (r.0.server.conn.turns ≡ [])
    × (r.0.server.conn.conn.next_id ≡ 2)
unfolding from_item get lspgraph.Graph.NodeId-discrete lspgraph.Transport.Answers.first_answer
    lspgraph.Transport.response_id lspgraph.Transport.classify lspgraph.Server.unwrap_calls
expand-frames_example =
    expand-frames to_vec from_slice wires one_item (λ url. some url) (λ n. []) engine
      (from_item item) item (one_call (codes "from")) (one_call (codes "to")) (pieces [])
      (pieces body) ([] ∷ []) (body ∷ []) [] refl refl link-IsReady refl empty-AreWhole
      body-AreWhole refl refl
