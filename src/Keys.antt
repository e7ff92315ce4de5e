-- ===== src/Keys.antt =====
-- crates/lspgraph-tui/src/keys.rs: what each key does on each screen.
pub mod Session
pub mod Requests
pub mod Quits
use lspgraph.Base.{
  ℕ, Bool, true, false, ◌&&◌, Option, none, some, List, [], ◌∷◌, ◌==◌, if◌then◌else◌, is_empty,
}
use lspgraph.Protocol.{Request}
use lspgraph.App.{
  App, starting, search, graph, dismiss_error, quit, push_query_char, pop_query_char, submit_query,
  select_match_next, select_match_prev, chosen_match, enter_search, leave_search,
}
use lspgraph.App.Events.{recentre, back}
use lspgraph.App.Selection.{move_pane, select_next, select_prev}

-- `KeyCode`, with one constructor for the codes that the code does not name.
pub data KeyCode : Type 0 where
  char : ℕ → KeyCode
  esc enter backspace up down left right other : KeyCode

-- `KeyEvent`, with whether its modifiers contain CONTROL.
pub record KeyEvent : Type 0 where
  pub code : KeyCode
  pub control : Bool

abbrev pub is_char : KeyCode → ℕ → Bool
is_char (char c) d = c == d
is_char code d = false

-- `Option<Request>::into_iter().collect()`.
abbrev pub to_list : Option Request → List Request
to_list none = []
to_list (some r) = r ∷ []

unfoldable pub overlay_key : App → KeyCode → App × List Request
overlay_key a esc = (dismiss_error a, [])
overlay_key a (char c) =
    if c == b'r'
    then (dismiss_error a, Request.restart ∷ [])
    else if c == b'q'
    then (quit a, [])
    else (a, [])
overlay_key a code = (a, [])

unfoldable pub search_key : App → KeyCode → App × List Request
search_key a esc = (leave_search a, [])
search_key a enter =
    (a, if is_empty a.matches then to_list (submit_query a) else to_list (chosen_match a))
search_key a backspace = (pop_query_char a, [])
search_key a down = (select_match_next a, [])
search_key a up = (select_match_prev a, [])
search_key a (char c) = (push_query_char a c, [])
search_key a code = (a, [])

abbrev moved : App × Option Request → App × List Request
moved (a, r) = (a, to_list r)

unfoldable pub graph_key : App → KeyCode → App × List Request
graph_key a (char c) =
    if c == b'q'
    then (quit a, [])
    else if c == b'/'
    then (enter_search a, [])
    else if c == b'u'
    then moved (back a)
    else (a, [])
graph_key a enter = moved (recentre a)
graph_key a left = (move_pane a false, [])
graph_key a right = (move_pane a true, [])
graph_key a down = (select_next a, [])
graph_key a up = (select_prev a, [])
graph_key a code = (a, [])

unfoldable pub handle_key : App → KeyEvent → App × List Request
handle_key a key = if key.control && is_char key.code b'c' then (quit a, []) else (elim a.error [
  | some e ↦ overlay_key a key.code
  | none ↦ elim a.screen [
    | starting ↦ (a, [])
    | search ↦ search_key a key.code
    | graph ↦ graph_key a key.code
  ]
])
