-- ===== src/Keys/Session.antt =====
-- Keys and events in any order: the invariant over whole sessions, and the ways out.
use lspgraph.Base.{
  some, none, Option, Bool-cases, ◌&&◌, Text, inl, inr, none, ◌≢◌, true, false, List, [], ◌∷◌, ◌++◌,
  ◌≡◌, refl, arith,
}
use lspgraph.Protocol.{Request, Event}
use lspgraph.App.{starting, search, graph, Screen, Screen, dismiss_error, App, new, quit}
use lspgraph.App.Events.{on_event}
use lspgraph.App.Valid.{
  IsValid, new-IsValid, dismiss_error-IsValid, push_query_char-IsValid, on_event-IsValid,
  recentre-IsValid, back-IsValid, quit-IsValid, pop_query_char-IsValid, select_match_next-IsValid,
  select_match_prev-IsValid, enter_search-IsValid, leave_search-IsValid, move_pane-IsValid,
  select_next-IsValid, select_prev-IsValid,
}
use lspgraph.Keys.{
  is_char, KeyEvent, KeyCode, char, esc, enter, backspace, up, down, left, right, overlay_key,
  search_key, graph_key, handle_key,
}

module _ {a : App} (v : IsValid a) where
  overlay_key-IsValid : (code : KeyCode) → IsValid (overlay_key a code).0
  unfolding overlay_key
  overlay_key-IsValid esc = dismiss_error-IsValid v
  overlay_key-IsValid (char c) = ground (arith, dismiss_error-IsValid v, quit-IsValid v)
  overlay_key-IsValid code = v

  search_key-IsValid : (code : KeyCode) → IsValid (search_key a code).0
  unfolding search_key
  search_key-IsValid esc = leave_search-IsValid v
  search_key-IsValid backspace = pop_query_char-IsValid v
  search_key-IsValid down = select_match_next-IsValid v
  search_key-IsValid up = select_match_prev-IsValid v
  search_key-IsValid (char c) = push_query_char-IsValid v c
  search_key-IsValid code = v

  graph_key-IsValid : (code : KeyCode) → IsValid (graph_key a code).0
  unfolding graph_key
  graph_key-IsValid (char c) =
      ground (arith, quit-IsValid v, enter_search-IsValid v, back-IsValid v)
  graph_key-IsValid enter = recentre-IsValid v
  graph_key-IsValid left = move_pane-IsValid v false
  graph_key-IsValid right = move_pane-IsValid v true
  graph_key-IsValid down = select_next-IsValid v
  graph_key-IsValid up = select_prev-IsValid v
  graph_key-IsValid code = v

  pub handle_key-IsValid : (key : KeyEvent) → IsValid (handle_key a key).0
  unfolding handle_key
  handle_key-IsValid key = ground (
    arith,
    quit-IsValid v,
    overlay_key-IsValid key.code,
    search_key-IsValid key.code,
    graph_key-IsValid key.code,
  )

-- What reaches the interface: a key, or an event of the worker.
pub data Input : Type 0 where
  key : KeyEvent → Input
  event : Event → Input

unfoldable pub step : App → Input → App × List Request
step a (key k) = handle_key a k
step a (event e) = on_event a e

-- A session: the state behind a list of inputs, and every request that was sent.
unfoldable pub run : App → List Input → App × List Request
unfolding step
run a [] = (a, [])
run a (i ∷ is) = let (b, sent) = step a i in let (c, rest) = run b is in (c, sent ++ rest)

run_keeps : (is : List Input) (a : App) → IsValid a → IsValid (run a is).0
unfolding run
run_keeps [] a v = v
run_keeps (key k ∷ is) a v = run_keeps is _ (handle_key-IsValid v k)
run_keeps (event e ∷ is) a v = run_keeps is _ (on_event-IsValid v e)

-- Whatever keys are pressed and whatever the worker reports, in any order, the interface is valid.
pub run-IsValid : (is : List Input) → IsValid (run new is).0
run-IsValid is = run_keeps is new new-IsValid

-- Ctrl-c quits from every state, sends nothing and changes nothing else.
pub handle_key-ctrl_c :
    (a : App) → handle_key a (record { code = char b'c'; control = true }) ≡ (quit a, [])
unfolding handle_key
handle_key-ctrl_c a = refl

-- Behind an error on the screen every key but ctrl-c leaves the session as it is: only the error
-- and the wish to quit may change.
handle_key-overlay :
    (a : App) (k : KeyEvent)
    → a.error ≢ none
    → let b = (handle_key a k).0 in record b { error = a.error; should_quit = a.should_quit } ≡ a
unfolding handle_key overlay_key dismiss_error
handle_key-overlay a k h = ground arith

-- Where a key goes: to the way out, to the overlay, or to the screen.
pub handle_key_cases {ℓ} :
    (P : App × List Request → Type ℓ) (a : App) (k : KeyEvent)
    → P (quit a, [])
    → (a.error ≢ none → P (overlay_key a k.code))
    → P (a, [])
    → P (search_key a k.code)
    → P (graph_key a k.code)
    → P (handle_key a k)
unfolding handle_key
handle_key_cases P a k out over idle in_search in_graph =
    elim (Bool-cases (k.control && is_char k.code b'c')) [
      | inl c ↦ rw c out
      | inr c ↦ rw c (behind a.error over)
    ]
  where
    on_screen :
        (s : Screen)
        → P (elim s [
          | starting ↦ (a, [])
          | search ↦ search_key a k.code
          | graph ↦ graph_key a k.code
        ])
    on_screen starting = idle
    on_screen search = in_search
    on_screen graph = in_graph

    behind :
        (e : Option Text)
        → (e ≢ none → P (overlay_key a k.code))
        → P (elim e [
          | some e ↦ overlay_key a k.code
          | none ↦ elim a.screen [
            | starting ↦ (a, [])
            | search ↦ search_key a k.code
            | graph ↦ graph_key a k.code
          ]
        ])
    behind none f = on_screen a.screen
    behind (some e) f = f (λ p. cc)
