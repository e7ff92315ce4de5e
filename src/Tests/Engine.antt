-- ===== src/Tests/Engine.antt =====
-- The call graph, the engine and the worker on two functions of two files, of which the first calls
-- the second.
use lspgraph.Base.{
  arith, ℕ, ◌+◌, Option, none, some, List, [], ◌∷◌, Text, codes, ◌≡◌, ◌≢◌, refl, inl, All, true,
  false, Text-discrete, if◌then◌else◌, map,
}
use lspgraph.Base.Map.{get, insert}
use lspgraph.Error.{Result, ok}
use lspgraph.Graph.{
  CallGraph, CallHierarchyItem, Expansion, Node, NodeId, Position, from_item, get_node, in_file,
  upsert, record_expansion, drop_file, callers_of, callees_of, unexpanded, expanded, from_repr,
  into_repr,
}
use lspgraph.Graph.WellFormed.{IsWellFormed, new-IsWellFormed, upsert-IsWellFormed}
use lspgraph.Graph.Repr.{from_repr-into_repr}
use lspgraph.Symbols.{NamedCallable, SymbolMatch}
use lspgraph.Protocol.{Request}
use lspgraph.Engine.{Engine, LspCalls, seed, expand, invalidate_file}
use lspgraph.Engine.Valid.{IsValid, new-IsValid, seed-IsValid}
use lspgraph.Engine.Session.{seeds, expands, invalidates, after_uses, after_uses-IsValid}
use lspgraph.Graph.View.{
  Change, records, removes, apply_all, lookups, change_all, lookups-apply_all,
}
use lspgraph.Engine.Memo.{IsSettled, expand-IsSettled}
use lspgraph.Engine.Forgets.{Forgets, expand-invalidate_file}
use lspgraph.Engine
use lspgraph.Worker.{CoreEngine, core_ops, serve, resolve_expansion}
use lspgraph.Worker.Answers.{AllAnswered, serve-AllAnswered}
use lspgraph.Worker.Core.{resolve_expansion_ids}

abbrev at : ℕ → Position
at n = record { line = n; character = 3 }

abbrev caller : CallHierarchyItem
caller = record {
  name = codes "main";
  kind = 12;
  detail = none;
  uri = codes "file:///a.rs";
  selection_start = at 1;
  others = [];
}

abbrev callee : CallHierarchyItem
callee = record {
  name = codes "send";
  kind = 12;
  detail = some (codes "fn send()");
  uri = codes "file:///b.rs";
  selection_start = at 7;
  others = [];
}

abbrev caller_id : NodeId
caller_id = record { uri = codes "file:///a.rs"; line = 1; character = 3; name = codes "main" }

abbrev callee_id : NodeId
callee_id = record { uri = codes "file:///b.rs"; line = 7; character = 3; name = codes "send" }

abbrev caller_node : Node
caller_node = record {
  id = caller_id;
  kind_name = codes "Function";
  detail = none;
  state = unexpanded;
}

-- A server that counts its calls, and on which the first function calls the second.
abbrev calls : LspCalls ℕ
calls = record {
  prepare_call_hierarchy = λ n path pos. (n + 1, ok (caller ∷ []));
  incoming_calls = λ n item. (n + 1, ok []);
  outgoing_calls = λ n item. (n + 1, ok (callee ∷ []));
  to_file_path = λ uri. some uri;
  debug_kind = λ kind. codes "Function";
}

abbrev candidate : NamedCallable
candidate = record { name = codes "main"; uri = codes "file:///a.rs"; position = at 1 }

abbrev seeded : Engine ℕ
seeded = (seed calls (Engine.new 0) candidate).0

abbrev seeded-IsValid : IsValid seeded
seeded-IsValid = seed-IsValid calls (Engine.new 0) candidate (new-IsValid 0)

abbrev calls_of_main : Expansion
calls_of_main = record { callers = []; callees = callee_id ∷ [] }

abbrev one_node : CallGraph
one_node = upsert lspgraph.Graph.new caller_node

fresh : caller_node.state ≢ expanded
fresh p = cc

abbrev one_node-IsWellFormed : IsWellFormed one_node
one_node-IsWellFormed = upsert-IsWellFormed lspgraph.Graph.new new-IsWellFormed caller_node fresh

abbrev core : CoreEngine ℕ
core = record { engine = Engine.new 0; can_search = true }

abbrev requests : List Request
requests = Request.expand caller_id ∷ Request.restart ∷ Request.search [] ∷ []

abbrev find_nothing : ℕ → Text → ℕ × Result (List SymbolMatch)
find_nothing n query = (n + 1, ok [])

abbrev stop : ℕ → ℕ × Result {0} Unit
stop n = (n, ok tt)

-- The first expansion answers with the two calls of the server, the second without any.
expands_once :
    ((expand calls seeded caller_id).1 ≡ ok calls_of_main)
    × ((expand calls seeded caller_id).0.server ≡ 3)
    × ((expand calls (expand calls seeded caller_id).0 caller_id).0.server ≡ 3)
unfolding expand seed lspgraph.Graph.NodeId-discrete Text-discrete get upsert insert from_item
    record_expansion lspgraph.Base.Map.update
expands_once = (refl, refl, refl)

expand-IsSettled_example : IsSettled calls seeded caller_id (expand calls seeded caller_id)
expand-IsSettled_example = expand-IsSettled calls seeded caller_id seeded-IsValid

expand-invalidate_file_example :
    Forgets calls caller_id.uri caller_id (invalidate_file seeded caller_id.uri)
expand-invalidate_file_example =
    expand-invalidate_file calls seeded caller_id.uri caller_id seeded-IsValid refl

serve-AllAnswered_example :
    AllAnswered requests (serve (core_ops calls find_nothing stop) core requests).1
serve-AllAnswered_example = serve-AllAnswered (core_ops calls find_nothing stop) core requests

resolve_expansion_ids_example :
    let r = resolve_expansion (core_ops calls find_nothing stop) core calls_of_main in
    (map (λ n. n.id) r.callers ≡ []) × (map (λ n. n.id) r.callees ≡ callee_id ∷ [])
resolve_expansion_ids_example =
    resolve_expansion_ids calls find_nothing stop core calls_of_main (new-IsValid 0)

from_repr-into_repr_example :
    let g = from_repr (into_repr one_node) in
    (get_node g caller_id ≡ get_node one_node caller_id)
    × (callers_of g caller_id ≡ callers_of one_node caller_id)
    × (callees_of g caller_id ≡ callees_of one_node caller_id)
from_repr-into_repr_example = from_repr-into_repr one_node caller_id one_node-IsWellFormed

after_uses-IsValid_example : IsValid (
    after_uses calls
      (Engine.new 0)
      (seeds candidate ∷ expands caller_id ∷ invalidates caller_id.uri ∷ []))
after_uses-IsValid_example =
    after_uses-IsValid calls (Engine.new 0)
      (seeds candidate ∷ expands caller_id ∷ invalidates caller_id.uri ∷ []) (new-IsValid 0)

-- Two nodes, of which the one that calls the other is expanded, and the other's file is removed.
abbrev two_nodes : CallGraph
two_nodes = upsert one_node (record caller_node { id = callee_id })

abbrev expand_and_remove : List Change
expand_and_remove = records caller_id calls_of_main ∷ removes callee_id.uri ∷ []

lookups-apply_all_example :
    lookups (apply_all two_nodes expand_and_remove)
    ≡ change_all (lookups two_nodes) expand_and_remove
lookups-apply_all_example = lookups-apply_all two_nodes expand_and_remove
