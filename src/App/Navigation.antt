-- ===== src/App/Navigation.antt =====
-- What the transitions of the interface mean for the user: stale answers, the way there and back,
-- the breadcrumb.
use lspgraph.Base.{true, false, none, some, List, [], ◌∷◌, ◌++◌, Text, ◌≡◌, ◌≢◌, refl, arith}
use lspgraph.Graph.{NodeId, Node}
use lspgraph.Protocol.{Request, ResolvedExpansion, expanded, failed}
use lspgraph.App.{App, breadcrumb, expansion_failed, is_pending}
use lspgraph.App.Events.{on_event, recentre, back, pop, selected_node}
use mathlib.Core.List.{map-append}
use lspgraph.App.Valid.{IsValid}

-- An expansion that is not the one that was asked for last changes nothing.
pub on_event-stale :
    (a : App) (id : NodeId) (exp : ResolvedExpansion)
    → a.pending ≢ some id
    → on_event a (expanded id exp) ≡ (a, [])
unfolding on_event
on_event-stale a id exp h = ground arith

-- The answer to the last request fills both panes from the start and ends the loading.
pub on_event-current :
    (a : App) (id : NodeId) (exp : ResolvedExpansion)
    → a.pending ≡ some id
    → let b = (on_event a (expanded id exp)).0 in
      (b.callers ≡ exp.callers)
      × (b.callees ≡ exp.callees)
      × (b.caller_sel ≡ 0)
      × (b.callee_sel ≡ 0)
      × (is_pending b ≡ false)
      × (expansion_failed b ≡ false)
      × (b.focus ≡ a.focus)
unfolding on_event is_pending expansion_failed
on_event-current a id exp h = ground arith

-- A failed expansion is reported as an error, and as failed in the panes exactly when it was the
-- one that the centre waits for.
pub on_event-failed :
    (a : App) (id : NodeId) (why : Text)
    → IsValid a
    → a.pending ≢ none
    → let b = (on_event a (failed id why)).0 in
      (b.error ≢ none)
      × (b.focus ≡ a.focus)
      × ((a.pending ≡ some id) → (expansion_failed b ≡ true) × (is_pending b ≡ false))
      × ((a.pending ≢ some id) → (expansion_failed b ≡ false) × (b.pending ≡ a.pending))
unfolding on_event is_pending expansion_failed
on_event-failed a id why v h = ground arith

pop-snoc {ℓ} : {A : Type ℓ} (xs : List A) (x : A) → pop (xs ++ x ∷ []) ≡ some (x, xs)
unfolding pop
pop-snoc [] x = refl
pop-snoc (y ∷ []) x = refl
pop-snoc (y ∷ z ∷ xs) x = ground (arith, pop-snoc (z ∷ xs) x)

-- With a node in the centre and another selected, re-centring moves the selected one into the
-- centre, asks for its expansion and appends its name to the breadcrumb; a step back right after
-- puts the old centre, the old history and the old breadcrumb back and asks for the old centre's
-- expansion again.
pub back-recentre :
    (a : App) (cur next : Node)
    → a.focus ≡ some cur
    → selected_node a ≡ some next
    → let (b, asked) = recentre a in
      let (c, again) = back b in
      (asked ≡ some (Request.expand next.id))
      × (b.focus ≡ some next)
      × (again ≡ some (Request.expand cur.id))
      × (c.focus ≡ some cur)
      × (c.history ≡ a.history)
      × (breadcrumb b ≡ breadcrumb a ++ next.id.name ∷ [])
      × (breadcrumb c ≡ breadcrumb a)
unfolding recentre back breadcrumb
back-recentre a cur next at to =
    ground
      (arith, pop-snoc a.history cur, map-append (λ (n : Node). n.id.name) a.history (cur ∷ []))
