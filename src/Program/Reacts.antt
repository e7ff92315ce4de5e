-- ===== src/Program/Reacts.antt =====
-- What a key and an event of the worker do to the wait for an expansion, in
-- crates/lspgraph-tui/src/keys.rs and crates/lspgraph-tui/src/app.rs.
use lspgraph.Keys.Session.{handle_key_cases}
use lspgraph.Base.{inl, true, some, List, ◌≡◌, ◌⊎◌, arith, Any}
use lspgraph.Graph.{NodeId}
use lspgraph.Protocol.{seeded, Request, Event, expand, expanded, failed, fatal}
use lspgraph.App.{App}
use lspgraph.App.Events.{on_event, recentre, back}
use lspgraph.Keys.{
  esc, enter, char, handle_key, KeyCode, KeyEvent, graph_key, search_key, overlay_key, to_list,
}

-- The event answers the expansion of the node.
abbrev pub AnswersTo : NodeId → Event → Type 0
AnswersTo id (expanded j exp) = j ≡ id
AnswersTo id (failed j why) = j ≡ id
AnswersTo id ev = ⊥

abbrev pub IsFatal : Event → Type 0
IsFatal (fatal why) = Unit
IsFatal ev = ⊥

-- The request is for the expansion of the node.
abbrev pub IsExpand : NodeId → Request → Type 0
IsExpand id r = r ≡ expand id

-- What a key does to the wait: the interface waits for what it waited for, or has asked for it, and
-- a wish to quit stays.
abbrev pub Reacts : App → App × List Request → Type 0
Reacts a (b, sent) =
    ((id : NodeId) → b.pending ≡ some id → (a.pending ≡ some id) ⊎ Any (IsExpand id) sent)
    × (a.should_quit ≡ true → b.should_quit ≡ true)

recentre-Reacts : (a : App) → let (b, r) = recentre a in Reacts a (b, to_list r)
unfolding recentre
recentre-Reacts a = ground arith

back-Reacts : (a : App) → let (b, r) = back a in Reacts a (b, to_list r)
unfolding back
back-Reacts a = ground arith

search_key-Reacts : (a : App) (code : KeyCode) → Reacts a (search_key a code)
unfolding search_key lspgraph.App.push_query_char lspgraph.App.pop_query_char
    lspgraph.App.invalidate_matches lspgraph.App.leave_search lspgraph.App.select_match_next
    lspgraph.App.select_match_prev
search_key-Reacts a esc = ground arith
search_key-Reacts a code = (λ id h. inl h, λ h. h)

graph_key-Reacts : (a : App) (code : KeyCode) → Reacts a (graph_key a code)
unfolding graph_key lspgraph.App.enter_search lspgraph.App.Selection.move_pane
    lspgraph.App.Selection.select_next lspgraph.App.Selection.select_prev
graph_key-Reacts a (char c) = ground (arith, back-Reacts a)
graph_key-Reacts a enter = recentre-Reacts a
graph_key-Reacts a code = ground arith

overlay_key-Reacts : (a : App) (code : KeyCode) → Reacts a (overlay_key a code)
unfolding overlay_key lspgraph.App.dismiss_error
overlay_key-Reacts a (char c) = ground arith
overlay_key-Reacts a code = (λ id h. inl h, λ h. h)

pub handle_key-Reacts : (a : App) (k : KeyEvent) → Reacts a (handle_key a k)
handle_key-Reacts a k =
    handle_key_cases (Reacts a) a k (λ id h. inl h, λ h. λ i. true)
      (λ h. overlay_key-Reacts a k.code) (λ id h. inl h, λ h. h) (search_key-Reacts a k.code)
      (graph_key-Reacts a k.code)

-- What an event does to the wait: besides, an answer ends it, and a fatal event is the end.
abbrev pub ReactsTo : App → Event → App × List Request → Type 0
ReactsTo a ev (b, sent) =
    ((id : NodeId)
      → b.pending ≡ some id
      → ((a.pending ≡ some id) × (AnswersTo id ev → ⊥)) ⊎ Any (IsExpand id) sent)
    × (a.should_quit ≡ true → b.should_quit ≡ true)
    × (IsFatal ev → b.should_quit ≡ true)

pub on_event-Reacts : (a : App) (ev : Event) → ReactsTo a ev (on_event a ev)
unfolding on_event lspgraph.App.Events.centre_on
on_event-Reacts a (seeded (some node)) = ground arith
on_event-Reacts a (expanded id exp) = ground arith
on_event-Reacts a (failed id why) = ground arith
on_event-Reacts a ev = ground arith
