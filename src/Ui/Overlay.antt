-- ===== src/Ui/Overlay.antt =====
-- crates/lspgraph-tui/src/ui/overlay.rs: the box an error is drawn in. Coordinates are numbers; the
-- sums of the code are those of `u16` for an area that ends below 2^16, as a terminal's does.
use lspgraph.Base.{Text, codes, ◌++◌, ℕ, ◌+◌, ◌-◌, ◌/◌, ◌≤◌, min, max, ◌↔◌, arith}

-- `ratatui::layout::Rect`.
pub record Rect : Type 0 where
  pub x : ℕ
  pub y : ℕ
  pub width : ℕ
  pub height : ℕ

-- The rectangle of `draw_error`.
unfoldable pub error_rect : Rect → Rect
error_rect area =
    let w = min (max (area.width - 8) 20) 70 in
    let h = min 7 area.height in
    record {
      x = area.x + (area.width - w) / 2;
      y = area.y + (area.height - h) / 2;
      width = w;
      height = h;
    }

-- What `draw_error` draws: the box, on cleared ground, and the text in it.
pub record ErrorView : Type 0 where
  pub rect : Rect
  pub title : Text
  pub text : Text

unfoldable pub draw_error : Rect → Text → ErrorView
unfolding error_rect
draw_error area msg = record {
  rect = error_rect area;
  title = codes "error";
  text = msg ++ codes "\n\nesc dismiss · r exit to relaunch · q quit";
}

-- The inner rectangle lies in the outer one.
pub record IsInside (inner outer : Rect) : Type 0 where
  pub left : outer.x ≤ inner.x
  pub right : inner.x + inner.width ≤ outer.x + outer.width
  pub top : outer.y ≤ inner.y
  pub bottom : inner.y + inner.height ≤ outer.y + outer.height

-- The box of an error lies in the area it is drawn over exactly if the area is at least 20 columns
-- wide, whatever its height.
pub error_rect-IsInside : (area : Rect) → IsInside (error_rect area) area ↔ (20 ≤ area.width)
unfolding error_rect
error_rect-IsInside area = (
  λ inside. omega (arith, inside.right),
  λ wide. record {
    left = omega arith;
    right = omega arith;
    top = omega arith;
    bottom = omega arith;
  },
)
