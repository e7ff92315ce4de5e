-- ===== src/Tests/Screen.antt =====
-- The interface at concrete inputs.
use lspgraph.Base.{
  ◌≤◌, ◌↔◌, ◌++◌, ◌≡◌, refl, none, some, List, [], ◌∷◌, codes, true, false, get_elem?, All,
}
use lspgraph.Graph.{Node, NodeId, unexpanded}
use lspgraph.Symbols.{SymbolMatch}
use lspgraph.Protocol
use lspgraph.Protocol.{Request}
use lspgraph.App.{
  App, graph, search, callees, is_pending, expansion_failed, chosen_match, breadcrumb,
}
use lspgraph.App.Valid.{IsValid}
use lspgraph.App.Events.{recentre, back, selected_node}
use lspgraph.App.Navigation.{back-recentre}
use lspgraph.Keys.{KeyEvent, enter}
use lspgraph.Keys.Session.{key, event, step, run, run-IsValid}
use lspgraph.Keys.Requests.{IsSound, step-IsSound}
use lspgraph.Ui.Search.{Row, rows, search_body, match_text}
use lspgraph.Ui.Overlay.{Rect, error_rect, IsInside, error_rect-IsInside}
use lspgraph.Ui.Shown.{search_body-chosen_match}

abbrev id : NodeId
id = record { uri = codes "file:///a.rs"; line = 1; character = 3; name = codes "main" }

abbrev centre : Node
centre = record { id = id; kind_name = codes "Function"; detail = none; state = unexpanded }

abbrev other : Node
other = record centre { id = record id { name = codes "send" } }

abbrev shown : App
shown = record lspgraph.App.new {
  screen = graph;
  can_search = true;
  focus = some centre;
  callees = other ∷ [];
  pane = callees;
}

abbrev press_enter : KeyEvent
press_enter = record { code = enter; control = false }

abbrev hit : SymbolMatch
hit = record {
  name = codes "main";
  container = none;
  uri = codes "file:///a.rs";
  position = record { line = 1; character = 3 };
  kind = 12;
}

abbrev searched : App
searched = record lspgraph.App.new {
  screen = search;
  can_search = true;
  query = codes "main";
  matches = hit ∷ hit ∷ [];
  match_sel = 1;
  searched = true;
}

run-IsValid_example :
    IsValid (run lspgraph.App.new (event (Protocol.Event.ready true) ∷ key press_enter ∷ [])).0
run-IsValid_example = run-IsValid (event (Protocol.Event.ready true) ∷ key press_enter ∷ [])

step-IsSound_example :
    All (IsSound shown (step shown (key press_enter)).0) (step shown (key press_enter)).1
step-IsSound_example = step-IsSound shown (key press_enter)

at_other : selected_node shown ≡ some other
unfolding selected_node
at_other = refl

back-recentre_example :
    let (b, asked) = recentre shown in
    let (c, again) = back b in
    (asked ≡ some (Request.expand other.id))
    × (b.focus ≡ some other)
    × (again ≡ some (Request.expand id))
    × (c.focus ≡ some centre)
    × (c.history ≡ [])
    × (breadcrumb b ≡ breadcrumb shown ++ codes "send" ∷ [])
    × (breadcrumb c ≡ breadcrumb shown)
back-recentre_example = back-recentre shown centre other refl at_other

search_body-chosen_match_example :
    (get_elem? searched.matches 1 ≡ some hit)
    × (rs : List Row) × (search_body searched ≡ rows rs)
    × (get_elem? rs 0 ≡ some (record { text = match_text hit; reversed = false }))
unfolding chosen_match
search_body-chosen_match_example = search_body-chosen_match searched hit hit 0 refl refl refl

abbrev narrow : Rect
narrow = record { x = 0; y = 0; width = 19; height = 24 }

error_rect-IsInside_example : IsInside (error_rect narrow) narrow ↔ (20 ≤ 19)
error_rect-IsInside_example = error_rect-IsInside narrow
