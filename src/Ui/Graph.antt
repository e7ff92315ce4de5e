-- ===== src/Ui/Graph.antt =====
-- crates/lspgraph-tui/src/ui/graph.rs: the three panes of the call graph.
use lspgraph.Base.{
  ℕ, ◌+◌, ◌==◌, Bool, true, false, ◌&&◌, Option, none, some, List, [], ◌∷◌, ◌++◌, Text, codes,
  if◌then◌else◌, is_empty,
}
use lspgraph.Base.Decimal.{format}
use lspgraph.Base.Str.{split}
use lspgraph.Graph.{Node, NodeId, NodeState, unresolved}
use lspgraph.Symbols.{or_else}
use lspgraph.App.{App, Pane, callers, callees, is_pending, expansion_failed, breadcrumb, status}
use lspgraph.App.Selection.{selected_index}
use lspgraph.Ui.Search.{Row}

abbrev pub unresolved_mark : Text
unresolved_mark = codes "⊘"

abbrev pub spinner : Text
spinner = codes "…"

abbrev pub failed_line : Text
failed_line = codes "expansion failed"

abbrev pub failed_hint : Text
failed_hint = codes "u to go back"

abbrev pub label_of : NodeState → Text → Text
label_of (unresolved r) name = unresolved_mark ++ (codes " " ++ name)
label_of s name = name

unfoldable pub label : Node → Text
label n = label_of n.state n.id.name

-- The last piece, `rsplit('/').next()`.
unfoldable pub last_piece : List Text → Text
last_piece [] = []
last_piece (t ∷ []) = t
last_piece (t ∷ u ∷ ts) = last_piece (u ∷ ts)

-- The sum is taken on numbers past `u32` where the code overflows at line 2^32 - 1.
unfoldable pub short_location : NodeId → Text
unfolding last_piece split format
short_location id =
    let piece = last_piece (split b'/' id.uri) in
    let file = if is_empty piece then id.uri else piece in
    file ++ (codes ":" ++ format (id.line + 1))

abbrev pub plain : Text → Row
plain t = record { text = t; reversed = false }

unfoldable pub node_rows : Bool → ℕ → ℕ → List Node → List Row
unfolding label
node_rows active sel i [] = []
node_rows active sel i (n ∷ ns) =
    record { text = label n; reversed = active && i == sel } ∷ node_rows active sel (i + 1) ns

pub record SidePane : Type 0 where
  pub bold : Bool
  pub items : List Row

-- The closure `side`.
unfoldable pub side : App → List Node → Bool → ℕ → SidePane
unfolding node_rows is_pending expansion_failed
side a nodes active sel = record {
  bold = active;
  items =
      if is_pending a
      then plain spinner ∷ []
      else if expansion_failed a
      then plain failed_line ∷ plain failed_hint ∷ []
      else node_rows active sel 0 nodes;
}

abbrev pub is_callers : Pane → Bool
is_callers callers = true
is_callers p = false

abbrev pub is_callees : Pane → Bool
is_callees callees = true
is_callees p = false

abbrev pub focus_title : Option Node → Text
focus_title none = []
focus_title (some n) = n.id.name

unfoldable pub focus_body : Option Node → Text
unfolding short_location
focus_body none = []
focus_body (some n) = or_else n.kind_name n.detail ++ (codes "\n" ++ short_location n.id)

-- `join(" › ")`.
unfoldable pub join : Text → List Text → Text
join sep [] = []
join sep (t ∷ []) = t
join sep (t ∷ u ∷ ts) = t ++ (sep ++ join sep (u ∷ ts))

abbrev pub keys_line : Text
keys_line = codes "←/→ pane · ↑/↓ select · ⏎ re-centre · u back · / search · q quit"

pub record GraphView : Type 0 where
  pub path : Text
  pub callers_pane : SidePane
  pub title : Text
  pub body : Text
  pub callees_pane : SidePane
  pub status_line : Text

unfoldable pub draw_graph : App → GraphView
unfolding side focus_body join breadcrumb status selected_index
draw_graph a = record {
  path = join (codes " › ") (breadcrumb a);
  callers_pane = side a a.callers (is_callers a.pane) (selected_index a callers);
  title = focus_title a.focus;
  body = focus_body a.focus;
  callees_pane = side a a.callees (is_callees a.pane) (selected_index a callees);
  status_line = if is_empty (status a) then keys_line else status a;
}
