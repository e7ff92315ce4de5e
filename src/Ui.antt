-- ===== src/Ui.antt =====
-- crates/lspgraph-tui/src/ui: what each frame shows. A view names the texts and the lists that the
-- code hands to the widgets, with the marks that say which are highlighted.
pub mod Search
pub mod Graph
pub mod Overlay
pub mod Shown
use mathlib.Core.Option
use lspgraph.Base.{Option, none, some, Text, codes, ◌++◌}
use lspgraph.App.{App, starting, search, graph}
use lspgraph.Ui.Search.{SearchView, draw_search}
use lspgraph.Ui.Overlay.{Rect, ErrorView, draw_error}
use lspgraph.Ui.Graph.{GraphView, draw_graph}

pub data View : Type 0 where
  graph_view : GraphView → View
  search_view : SearchView → View
  starting_view : Text → View

unfoldable pub draw_screen : App → View
unfolding draw_search draw_graph
draw_screen a = elim a.screen [
  | graph ↦ graph_view (draw_graph a)
  | search ↦ search_view (draw_search a)
  | starting ↦ starting_view (codes "starting… " ++ a.progress)
]

-- `draw`: the screen, and the error over it.
unfoldable pub draw : Rect → App → View × Option ErrorView
unfolding draw_screen draw_error
draw area a = (draw_screen a, Option.map (draw_error area) a.error)
