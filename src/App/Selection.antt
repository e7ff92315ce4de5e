-- ===== src/App/Selection.antt =====
-- crates/lspgraph-tui/src/app.rs: the active pane and the selections in the side panes.
use lspgraph.Base.{ℕ, ◌-◌, Bool, true, false}
use lspgraph.App.{App, Pane, callers, focus, callees, next_sel}

unfoldable pub next_pane : Pane → Bool → Pane
next_pane callers true = focus
next_pane focus true = callees
next_pane callees true = callees
next_pane callees false = focus
next_pane focus false = callers
next_pane callers false = callers

unfoldable pub move_pane : App → Bool → App
unfolding next_pane
move_pane a right = record a { pane = next_pane a.pane right }

unfoldable pub select_next : App → App
select_next a = elim a.pane [
  | callers ↦ record a { caller_sel = next_sel a.caller_sel a.callers }
  | callees ↦ record a { callee_sel = next_sel a.callee_sel a.callees }
  | focus ↦ a
]

unfoldable pub select_prev : App → App
select_prev a = elim a.pane [
  | callers ↦ record a { caller_sel = a.caller_sel - 1 }
  | callees ↦ record a { callee_sel = a.callee_sel - 1 }
  | focus ↦ a
]

unfoldable pub selected_index : App → Pane → ℕ
selected_index a callers = a.caller_sel
selected_index a callees = a.callee_sel
selected_index a focus = 0
