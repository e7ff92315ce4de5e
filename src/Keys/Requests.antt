-- ===== src/Keys/Requests.antt =====
-- What the interface asks of the worker, and when.
use lspgraph.Base.{true, none, some, [], ◌≡◌, ◌≢◌, arith, All, get_elem?}
use lspgraph.Protocol.{Request, Event, expand, seed, restart, shutdown, seeded, expanded, failed}
use lspgraph.App.{App, submit_query, chosen_match}
use lspgraph.App.Events.{on_event, recentre, back}
use lspgraph.Keys.{
  KeyEvent, KeyCode, char, enter, to_list, overlay_key, search_key, graph_key, handle_key,
}
use lspgraph.Keys.Session.{Input, key, event, step, handle_key_cases}

-- A request fits the states before and behind the input that caused it: an expansion is the one
-- that the interface now waits for, a search is for the query of a server that can search, a seed is
-- for the selected match, and a restart answers an error. A shutdown is never asked for here.
abbrev pub IsSound : App → App → Request → Type 0
IsSound a b (Request.search q) = (a.can_search ≡ true) × (q ≡ a.query) × (q ≢ []) × (a.matches ≡ [])
IsSound a b (seed m) = get_elem? a.matches a.match_sel ≡ some m
IsSound a b (expand id) = b.pending ≡ some id
IsSound a b restart = (a.error ≢ none) × (b.error ≡ none)
IsSound a b shutdown = ⊥

on_event-IsSound : (a : App) (e : Event) → All (IsSound a (on_event a e).0) (on_event a e).1
unfolding on_event
on_event-IsSound a (seeded (some node)) = ground arith
on_event-IsSound a (expanded id exp) = ground arith
on_event-IsSound a (failed id why) = ground arith
on_event-IsSound a e = ground arith

recentre-IsSound : (a : App) → let (b, r) = recentre a in All (IsSound a b) (to_list r)
unfolding recentre
recentre-IsSound a = ground arith

back-IsSound : (a : App) → let (b, r) = back a in All (IsSound a b) (to_list r)
unfolding back
back-IsSound a = ground arith

search_key-IsSound :
    (a : App) (code : KeyCode) → All (IsSound a (search_key a code).0) (search_key a code).1
unfolding search_key submit_query chosen_match
search_key-IsSound a enter = ground arith
search_key-IsSound a code = tt

graph_key-IsSound :
    (a : App) (code : KeyCode) → All (IsSound a (graph_key a code).0) (graph_key a code).1
unfolding graph_key
graph_key-IsSound a (char c) = ground (arith, back-IsSound a)
graph_key-IsSound a enter = recentre-IsSound a
graph_key-IsSound a code = tt

overlay_key-IsSound :
    (a : App) (code : KeyCode)
    → a.error ≢ none
    → All (IsSound a (overlay_key a code).0) (overlay_key a code).1
unfolding overlay_key lspgraph.App.dismiss_error
overlay_key-IsSound a (char c) h = ground arith
overlay_key-IsSound a code h = tt

handle_key-IsSound :
    (a : App) (k : KeyEvent) → All (IsSound a (handle_key a k).0) (handle_key a k).1
handle_key-IsSound a k =
    handle_key_cases (λ r. All (IsSound a r.0) r.1) a k tt (overlay_key-IsSound a k.code) tt
      (search_key-IsSound a k.code) (graph_key-IsSound a k.code)

-- Every request that a key or an event causes is sound: an expansion is the one that the interface
-- now waits for, a search is for the query, not empty, of a server that can search, a seed is for the
-- selected match, a restart answers an error, and no input asks for a shutdown.
pub step-IsSound : (a : App) (i : Input) → All (IsSound a (step a i).0) (step a i).1
unfolding step
step-IsSound a (key k) = handle_key-IsSound a k
step-IsSound a (event e) = on_event-IsSound a e
