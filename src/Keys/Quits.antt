-- ===== src/Keys/Quits.antt =====
-- The wish to quit of crates/lspgraph-tui/src/app.rs behind the keys of
-- crates/lspgraph-tui/src/keys.rs and behind the events.
use lspgraph.Base.{true, none, some, ◌≡◌, refl, arith}
use lspgraph.Protocol.{Event, ready, matches, seeded, expanded, failed, warning, fatal}
use lspgraph.App.{
  App, dismiss_error, push_query_char, pop_query_char, select_match_next, select_match_prev,
  enter_search, leave_search,
}
use lspgraph.App.Events.{on_event, recentre, back, centre_on}
use lspgraph.App.Selection.{move_pane, select_next, select_prev}
use lspgraph.Keys.{KeyEvent, KeyCode, overlay_key, search_key, graph_key, handle_key}
use lspgraph.Keys.Session.{handle_key_cases}

module _ (a : App) (wants : a.should_quit ≡ true) where
  pub on_event-quits : (ev : Event) → (on_event a ev).0.should_quit ≡ true
  unfolding on_event centre_on
  on_event-quits (ready can_search) = wants
  on_event-quits (matches ms) = wants
  on_event-quits (seeded (some node)) = wants
  on_event-quits (seeded none) = wants
  on_event-quits (expanded id exp) = ground (arith, wants)
  on_event-quits (failed id why) = ground (arith, wants)
  on_event-quits (warning why) = wants
  on_event-quits (fatal why) = refl

  overlay_key-quits : (code : KeyCode) → (overlay_key a code).0.should_quit ≡ true
  unfolding overlay_key dismiss_error
  overlay_key-quits code = ground (arith, wants)

  search_key-quits : (code : KeyCode) → (search_key a code).0.should_quit ≡ true
  unfolding search_key leave_search pop_query_char select_match_next select_match_prev
      push_query_char
  search_key-quits code = ground (arith, wants)

  graph_key-quits : (code : KeyCode) → (graph_key a code).0.should_quit ≡ true
  unfolding graph_key enter_search back recentre move_pane select_next select_prev centre_on
  graph_key-quits code = ground (arith, wants)

  pub handle_key-quits : (key : KeyEvent) → (handle_key a key).0.should_quit ≡ true
  handle_key-quits key =
      handle_key_cases (λ r. r.0.should_quit ≡ true) a key refl
        (λ shown. overlay_key-quits key.code) wants (search_key-quits key.code)
        (graph_key-quits key.code)
