-- ===== src/App.antt =====
-- crates/lspgraph-tui/src/app.rs: the state of the interface and its transitions.
pub mod Events
pub mod Selection
pub mod Valid
pub mod Navigation
use lspgraph.Base.{
  ℕ, ◌+◌, ◌-◌, min, Bool, true, false, not, ◌&&◌, ◌||◌, Option, none, some, List, [], ◌∷◌, ◌++◌,
  map, Text, codes, if◌then◌else◌, length, is_empty, get_elem?, ite,
}
use lspgraph.Graph.{NodeId, NodeId-discrete, Node, NodeState, unresolved, reason_text}
use lspgraph.Symbols.{SymbolMatch}
use lspgraph.Protocol.{
  Request, Event, ResolvedExpansion, ready, matches, seeded, expanded, failed, warning, fatal,
}

pub data Screen : Type 0 where
  starting search graph : Screen

pub data Pane : Type 0 where
  callers focus callees : Pane

pub record App : Type 0 where
  pub screen : Screen
  pub progress : Text
  pub can_search : Bool
  pub query : Text
  pub matches : List SymbolMatch
  pub match_sel : ℕ
  pub focus : Option Node
  pub callers : List Node
  pub callees : List Node
  pub pending : Option NodeId
  pub failed : Option NodeId
  pub searched : Bool
  pub history : List Node
  pub pane : Pane
  pub caller_sel : ℕ
  pub callee_sel : ℕ
  pub error : Option Text
  pub should_quit : Bool

abbrev pub new : App
new = record {
  screen = starting;
  progress = codes "starting language server";
  can_search = false;
  query = [];
  matches = [];
  match_sel = 0;
  focus = none;
  callers = [];
  callees = [];
  pending = none;
  failed = none;
  searched = false;
  history = [];
  pane = callers;
  caller_sel = 0;
  callee_sel = 0;
  error = none;
  should_quit = false;
}

abbrev same_id : Option NodeId → Option Node → Bool
same_id (some id) (some f) = ite (NodeId-discrete id f.id) true false
same_id id f = false

unfoldable pub expansion_failed : App → Bool
expansion_failed a = same_id a.failed a.focus

unfoldable pub dismiss_error : App → App
dismiss_error a = record a { error = none }

abbrev pub quit : App → App
quit a = record a { should_quit = true }

unfoldable pub invalidate_matches : App → App
invalidate_matches a = record a { matches = []; match_sel = 0; searched = false }

unfoldable pub push_query_char : App → ℕ → App
unfolding invalidate_matches
push_query_char a c = invalidate_matches (record a { query = a.query ++ c ∷ [] })

-- `String::pop`: drops the last character, if there is one.
unfoldable pub pop_char : Text → Text
pop_char [] = []
pop_char (c ∷ []) = []
pop_char (c ∷ d ∷ s) = c ∷ pop_char (d ∷ s)

unfoldable pub pop_query_char : App → App
unfolding invalidate_matches
pop_query_char a = invalidate_matches (record a { query = pop_char a.query })

unfoldable pub submit_query : App → Option Request
submit_query a =
    if not a.can_search || is_empty a.query then none else some (Request.search a.query)

-- `(sel + 1).min(len - 1)` on a list that is not empty.
unfoldable pub next_sel {ℓ} : {A : Type ℓ} → ℕ → List A → ℕ
next_sel sel [] = sel
next_sel sel (x ∷ xs) = min (sel + 1) (length (x ∷ xs) - 1)

unfoldable pub select_match_next : App → App
select_match_next a = record a { match_sel = next_sel a.match_sel a.matches }

unfoldable pub select_match_prev : App → App
select_match_prev a = record a { match_sel = a.match_sel - 1 }

unfoldable pub chosen_match : App → Option Request
chosen_match a = elim (get_elem? a.matches a.match_sel) [
  | none ↦ none
  | some m ↦ some (Request.seed m)
]

abbrev is_some {ℓ} : {A : Type ℓ} → Option A → Bool
is_some none = false
is_some (some x) = true

unfoldable pub is_pending : App → Bool
is_pending a = is_some a.pending

unfoldable pub breadcrumb : App → List Text
breadcrumb a =
    map (λ n. n.id.name) a.history ++ (elim a.focus [ none ↦ [] | some n ↦ n.id.name ∷ [] ])

abbrev state_text : NodeState → Text
state_text (unresolved r) = reason_text r
state_text s = []

unfoldable pub status : App → Text
unfolding reason_text
status a = elim a.focus [ none ↦ [] | some n ↦ state_text n.state ]

unfoldable pub enter_search : App → App
enter_search a = record a {
  screen = search;
  query = [];
  matches = [];
  match_sel = 0;
  searched = false;
}

unfoldable pub leave_search : App → App
leave_search a = if is_some a.focus then record a { screen = graph } else quit a
