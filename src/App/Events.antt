-- ===== src/App/Events.antt =====
-- crates/lspgraph-tui/src/app.rs: `on_event`, `recentre` and `back`, which move the centre.
use lspgraph.Base.{
  Bool, true, false, Option, none, some, List, [], ◌∷◌, ◌++◌, codes, if◌then◌else◌, get_elem?, ite,
}
use lspgraph.Graph.{NodeId, NodeId-discrete, Node}
use lspgraph.Protocol.{Request, Event, ready, matches, seeded, expanded, failed, warning, fatal}
use lspgraph.App.{App, callers, focus, callees, search, graph}

-- Puts a node into the centre and asks for its expansion: the assignments that a seed, a
-- re-centring and a step back share.
unfoldable pub centre_on : App → Node → App
centre_on a node = record a {
  focus = some node;
  callers = [];
  callees = [];
  pending = some node.id;
  failed = none;
  caller_sel = 0;
  callee_sel = 0;
}

abbrev pub is_current : App → NodeId → Bool
is_current a id = elim a.pending [ none ↦ false | some p ↦ ite (NodeId-discrete p id) true false ]

unfoldable pub on_event : App → Event → App × List Request
unfolding centre_on
on_event a (ready can_search) = (record a { can_search = can_search; screen = search }, [])
on_event a (matches ms) = (record a { matches = ms; match_sel = 0; searched = true }, [])
on_event a (seeded (some node)) =
    (centre_on (record a { screen = graph }) node, Request.expand node.id ∷ [])
on_event a (seeded none) =
    (record a { error = some (codes "that symbol has no call hierarchy") }, [])
on_event a (expanded id exp) =
    if is_current a id
    then (
      record a {
        callers = exp.callers;
        callees = exp.callees;
        pending = none;
        failed = none;
        caller_sel = 0;
        callee_sel = 0;
      },
      [],
    )
    else (a, [])
on_event a (failed id why) =
    let text = some (id.name ++ (codes ": " ++ why)) in
    if is_current a id
    then (record a { pending = none; failed = some id; error = text }, [])
    else (record a { error = text }, [])
on_event a (warning why) = (record a { error = some why }, [])
on_event a (fatal why) = (record a { error = some why; should_quit = true }, [])

-- The node that the selection of the active pane points at.
unfoldable pub selected_node : App → Option Node
selected_node a = elim a.pane [
  | callers ↦ get_elem? a.callers a.caller_sel
  | callees ↦ get_elem? a.callees a.callee_sel
  | focus ↦ none
]

-- `if let Some(cur) = self.focus.take() { self.history.push(cur) }`.
abbrev pub pushed : List Node → Option Node → List Node
pushed history none = history
pushed history (some cur) = history ++ cur ∷ []

unfoldable pub recentre : App → App × Option Request
unfolding centre_on
recentre a = elim (selected_node a) [
  | none ↦ (a, none)
  | some next ↦ (
    centre_on (record a { history = pushed a.history a.focus }) next,
    some (Request.expand next.id),
  )
]

-- `Vec::pop`: the last element and those before it.
unfoldable pub pop {ℓ} : {A : Type ℓ} → List A → Option (A × List A)
pop [] = none
pop (x ∷ []) = some (x, [])
pop (x ∷ y ∷ xs) = elim (pop (y ∷ xs)) [ none ↦ none | some (z, rest) ↦ some (z, x ∷ rest) ]

unfoldable pub back : App → App × Option Request
unfolding centre_on
back a = elim (pop a.history) [
  | none ↦ (a, none)
  | some (prev, rest) ↦
      (centre_on (record a { history = rest }) prev, some (Request.expand prev.id))
]
