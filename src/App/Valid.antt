-- ===== src/App/Valid.antt =====
-- The invariant of the interface, and that every transition keeps it.
use lspgraph.Base.{ℕ, ◌-◌, ◌≤◌, false, Option, none, some, List, [], ◌∷◌, length, ◌≡◌, ◌≢◌, arith}
use lspgraph.Graph.{NodeId, Node}
use lspgraph.Protocol.{Event, ready, matches, seeded, expanded, failed, warning, fatal}
use lspgraph.App.{
  Bool, quit, pop_query_char, enter_search, select_match_prev, select_match_next, leave_search, App,
  graph, new, next_sel, dismiss_error, push_query_char,
}
use lspgraph.App.Selection.{move_pane, select_next, select_prev}
use lspgraph.App.Events.{on_event, recentre, back}

-- The id is that of the node in the centre.
abbrev pub IsCentred : Option NodeId → Option Node → Type 0
IsCentred none centre = Unit
IsCentred (some id) none = ⊥
IsCentred (some id) (some n) = n.id ≡ id

-- A selection points into its list, or at 0 where the list is empty.
abbrev pub InRange {ℓ} : {A : Type ℓ} → ℕ → List A → Type 0
InRange sel xs = sel ≤ length xs - 1

-- Selections point into their lists; what is loading or has failed is the node in the centre, and
-- never both; the side panes are empty while an expansion is loading; matches are shown only for a
-- search that was answered; the graph screen and the history need a node in the centre.
pub record IsValid (a : App) : Type 0 where
  pub match_in_range : InRange a.match_sel a.matches
  pub caller_in_range : InRange a.caller_sel a.callers
  pub callee_in_range : InRange a.callee_sel a.callees
  pub pending_centred : IsCentred a.pending a.focus
  pub failed_centred : IsCentred a.failed a.focus
  pub one_outcome : a.pending ≢ none → a.failed ≡ none
  pub loading_empty : a.pending ≢ none → (a.callers ≡ []) × (a.callees ≡ [])
  pub answered : a.searched ≡ false → a.matches ≡ []
  pub graph_centred : a.screen ≡ graph → a.focus ≢ none
  pub history_centred : a.history ≢ [] → a.focus ≢ none

pub new-IsValid : IsValid new
new-IsValid = ground arith

next_sel-InRange {ℓ} :
    {A : Type ℓ} (sel : ℕ) (xs : List A) → InRange sel xs → InRange (next_sel sel xs) xs
unfolding next_sel
next_sel-InRange sel [] h = h
next_sel-InRange sel (x ∷ xs) h = omega arith

module _ {a : App} (v : IsValid a) where
  pub dismiss_error-IsValid : IsValid (dismiss_error a)
  unfolding dismiss_error
  dismiss_error-IsValid = ground arith

  pub push_query_char-IsValid : (c : ℕ) → IsValid (push_query_char a c)
  unfolding push_query_char
  push_query_char-IsValid c = ground arith

  pub on_event-IsValid : (e : Event) → IsValid (on_event a e).0
  unfolding on_event
  on_event-IsValid (ready can_search) = ground arith
  on_event-IsValid (matches ms) = ground arith
  on_event-IsValid (seeded (some node)) = ground arith
  on_event-IsValid (seeded none) = ground arith
  on_event-IsValid (expanded id exp) = ground arith
  on_event-IsValid (failed id why) = ground arith
  on_event-IsValid (warning why) = ground arith
  on_event-IsValid (fatal why) = ground arith

  pub recentre-IsValid : IsValid (recentre a).0
  unfolding recentre
  recentre-IsValid = ground arith

  pub back-IsValid : IsValid (back a).0
  unfolding back
  back-IsValid = ground arith

  pub quit-IsValid : IsValid (quit a)
  quit-IsValid = ground arith

  pub pop_query_char-IsValid : IsValid (pop_query_char a)
  unfolding pop_query_char
  pop_query_char-IsValid = ground arith

  pub select_match_next-IsValid : IsValid (select_match_next a)
  unfolding select_match_next
  select_match_next-IsValid =
      ground (arith, next_sel-InRange a.match_sel a.matches v.match_in_range)

  pub select_match_prev-IsValid : IsValid (select_match_prev a)
  unfolding select_match_prev
  select_match_prev-IsValid = ground arith

  pub enter_search-IsValid : IsValid (enter_search a)
  unfolding enter_search
  enter_search-IsValid = ground arith

  pub leave_search-IsValid : IsValid (leave_search a)
  unfolding leave_search
  leave_search-IsValid = ground arith

  pub move_pane-IsValid : (right : Bool) → IsValid (move_pane a right)
  unfolding move_pane
  move_pane-IsValid right = ground arith

  pub select_next-IsValid : IsValid (select_next a)
  unfolding select_next
  select_next-IsValid = ground (
    arith,
    next_sel-InRange a.caller_sel a.callers v.caller_in_range,
    next_sel-InRange a.callee_sel a.callees v.callee_in_range,
  )

  pub select_prev-IsValid : IsValid (select_prev a)
  unfolding select_prev
  select_prev-IsValid = ground arith
