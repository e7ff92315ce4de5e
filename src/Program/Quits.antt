-- ===== src/Program/Quits.antt =====
-- How the interface's loop in crates/lspgraph-tui/src/main.rs comes to its end.
use lspgraph.Base.{
  ℕ, zero, suc, ◌≤◌, Bool, true, false, not, ◌&&◌, Option, none, some, List, [], ◌∷◌, ◌++◌, Text,
  ◌≡◌, refl, sym, ◌∙◌, subst, ap, arith, inl, inr, Bool-cases, Any, length, if◌then◌else◌,
}
use lspgraph.Protocol.{Event, fatal}
use lspgraph.App.Events.{on_event}
use lspgraph.Keys.{KeyEvent, char}
use lspgraph.Keys.Session.{handle_key-ctrl_c}
use lspgraph.Keys.Quits.{on_event-quits, handle_key-quits}
use lspgraph.Worker.{EngineOps}
use lspgraph.Program.System.{
  System, interact, receive_event, drain_events, disconnected, end_drain, press, frame,
}
use lspgraph.Program.Session.{Turn, frame_of, take_turn, session}

abbrev pub ctrl_c : KeyEvent
ctrl_c = record { code = char b'c'; control = true }

-- Why a frame is the last: ctrl-c is pressed in it; a fatal event is under way, and the frame takes
-- all that is; or the worker has gone, and nothing more comes from it.
pub data IsLast {S : Type 0} (s : System S) : ℕ → Bool → Option KeyEvent → Type 0 where
  pressed_out : (n : ℕ) (gone : Bool) → IsLast s n gone (some ctrl_c)
  told :
      (n : ℕ) (gone : Bool) (key : Option KeyEvent) (why : Text)
      → Any (λ ev. ev ≡ fatal why) s.events
      → length s.events ≤ n
      → IsLast s n gone key
  left_alone :
      (n : ℕ) (key : Option KeyEvent)
      → s.running ≡ false
      → length s.events ≤ n
      → IsLast s n true key

abbrev Quits : {S : Type 0} → System S → Type 0
Quits s = s.app.should_quit ≡ true

no_events : (evs : List Event) → length evs ≤ 0 → evs ≡ []
no_events [] h = refl
no_events (ev ∷ evs) h = absurd (omega arith)

module _ {S : Type 0} where
  -- An event that is handled.
  abbrev handled : System S → Event → List Event → System S
  handled s ev events = interact (record s { events = events }) (on_event s.app ev)

  receive_event-cons :
      (s : System S) (ev : Event) (events : List Event)
      → s.events ≡ ev ∷ events
      → receive_event s ≡ handled s ev events
  unfolding receive_event
  receive_event-cons s ev events e = rw (e, receive_event) refl

  receive_event-nil : (s : System S) → s.events ≡ [] → receive_event s ≡ s
  unfolding receive_event
  receive_event-nil s e =
      let after : List Event → System S =
        λ evs. elim evs [ [] ↦ s | ev ∷ events ↦ handled s ev events ] in
      ap after e

  receive_event-Quits : (s : System S) → Quits s → Quits (receive_event s)
  receive_event-Quits s q = by_events s.events refl
    where
      by_events : (evs : List Event) → s.events ≡ evs → Quits (receive_event s)
      by_events [] e = rw (receive_event-nil s e) q
      by_events (ev ∷ events) e = rw (receive_event-cons s ev events e) (on_event-quits s.app q ev)

  drain_events-Quits : (n : ℕ) (s : System S) → Quits s → Quits (drain_events n s)
  unfolding drain_events
  drain_events-Quits zero s q = q
  drain_events-Quits (suc n) s q = drain_events-Quits n (receive_event s) (receive_event-Quits s q)

  receive_event-running : (s : System S) → (receive_event s).running ≡ s.running
  receive_event-running s = by_events s.events refl
    where
      by_events : (evs : List Event) → s.events ≡ evs → (receive_event s).running ≡ s.running
      by_events [] e = ap (λ (t : System S). t.running) (receive_event-nil s e)
      by_events (ev ∷ events) e =
          ap (λ (t : System S). t.running) (receive_event-cons s ev events e)

  drain_events-running : (n : ℕ) (s : System S) → (drain_events n s).running ≡ s.running
  unfolding drain_events
  drain_events-running zero s = refl
  drain_events-running (suc n) s =
      drain_events-running n (receive_event s) ∙ receive_event-running s

  receive_event-length :
      (n : ℕ) (s : System S) → length s.events ≤ suc n → length (receive_event s).events ≤ n
  receive_event-length n s few = by_events s.events refl
    where
      by_events : (evs : List Event) → s.events ≡ evs → length (receive_event s).events ≤ n
      by_events [] e = rw (receive_event-nil s e, e) (omega arith)
      by_events (ev ∷ events) e =
          let short : length (ev ∷ events) ≤ suc n = rw e at few in
          rw (receive_event-cons s ev events e) (omega (arith, short))

  -- A drain that takes enough leaves no event.
  drain_events-empty : (n : ℕ) (s : System S) → length s.events ≤ n → (drain_events n s).events ≡ []
  unfolding drain_events
  drain_events-empty zero s few = no_events s.events few
  drain_events-empty (suc n) s few =
      drain_events-empty n (receive_event s) (receive_event-length n s few)

  -- It comes to a fatal event.
  drain_events-fatal :
      (n : ℕ) (s : System S) (why : Text)
      → Any (λ ev. ev ≡ fatal why) s.events
      → length s.events ≤ n
      → Quits (drain_events n s)
  unfolding drain_events
  drain_events-fatal zero s why there few =
      elim (subst (Any (λ ev. ev ≡ fatal why)) (no_events s.events few) there) [ ]
  drain_events-fatal (suc n) s why there few =
      by_events s.events refl
        (λ later. drain_events-fatal n (receive_event s) why later (receive_event-length n s few))
    where
      by_events :
          (evs : List Event)
          → s.events ≡ evs
          → (Any (λ ev. ev ≡ fatal why) (receive_event s).events
              → Quits (drain_events n (receive_event s)))
          → Quits (drain_events n (receive_event s))
      by_events [] e rest = elim (subst (Any (λ ev. ev ≡ fatal why)) e there) [ ]
      by_events (ev ∷ events) e rest =
          let next = receive_event-cons s ev events e in
          elim (subst (Any (λ ev. ev ≡ fatal why)) e there) [
            | inl now ↦ drain_events-Quits n (receive_event s) (
                subst Quits (sym next)
                  (subst (λ x. (on_event s.app x).0.should_quit ≡ true) (sym now) refl))
            | inr later ↦
                rest
                  (subst (λ (t : System S). Any (λ ev. ev ≡ fatal why) t.events) (sym next) later)
          ]

  end_drain-Quits : (gone : Bool) (s : System S) → Quits s → Quits (end_drain gone s)
  unfolding end_drain
  end_drain-Quits gone s q = by_events s.events
    where
      by_events :
          (evs : List Event)
          → Quits (elim evs [
            | [] ↦ if gone && not s.running then disconnected s else s
            | ev ∷ events ↦ s
          ])
      by_events [] = ground (arith, q)
      by_events (ev ∷ events) = q

  end_drain-gone : (s : System S) → s.running ≡ false → s.events ≡ [] → Quits (end_drain true s)
  unfolding end_drain
  end_drain-gone s stopped nothing = rw (nothing, end_drain, stopped) refl

  press-Quits : (s : System S) (key : KeyEvent) → Quits s → Quits (press s key)
  unfolding press
  press-Quits s key q = handle_key-quits s.app q key

  -- A frame whose drain comes to the wish to quit, whatever key follows.
  frame-Quits :
      (n : ℕ) (gone : Bool) (key : Option KeyEvent) (s : System S)
      → Quits (end_drain gone (drain_events n s))
      → Quits (frame n gone key s)
  unfolding frame
  frame-Quits n gone none s q = q
  frame-Quits n gone (some key) s q = press-Quits (end_drain gone (drain_events n s)) key q

  IsLast-Quits :
      (n : ℕ) (gone : Bool) (key : Option KeyEvent) (s : System S)
      → IsLast s n gone key
      → Quits (frame n gone key s)
  unfolding frame press
  IsLast-Quits n gone key s (pressed_out n' gone') =
      ap (λ r. r.0.should_quit) (handle_key-ctrl_c (end_drain gone (drain_events n s)).app)
  IsLast-Quits n gone key s (told n' gone' key' why there few) =
      frame-Quits n gone key s
        (end_drain-Quits gone (drain_events n s) (drain_events-fatal n s why there few))
  IsLast-Quits n gone key s (left_alone n' key' stopped few) = frame-Quits n true key s (
      end_drain-gone (drain_events n s) (drain_events-running n s ∙ stopped)
        (drain_events-empty n s few))

module _ {S : Type 0} (ops : EngineOps S) where
  -- The loop comes to its end: where it has not ended before a frame in which ctrl-c is pressed, or
  -- which takes all the events under way, a fatal one among them, or which finds the worker gone and
  -- no more events, it ends with just this frame, with the wish to quit, whatever would come behind it.
  pub session-ends :
      (before after : List Turn) (s : System S) (n : ℕ) (gone : Bool) (key : Option KeyEvent)
      → (session ops before s).1 ≡ false
      → IsLast (session ops before s).0 n gone key
      → let e = session ops (before ++ frame_of n gone key ∷ after) s in
        (e.1 ≡ true)
        × (e.0 ≡ frame n gone key (session ops before s).0)
        × (e.0.app.should_quit ≡ true)
  unfolding session take_turn
  session-ends [] after s n gone key goes_on last =
      let q = IsLast-Quits n gone key s last in rw q (refl, refl, q)
  session-ends (t ∷ before) after s n gone key goes_on last =
      let s' = take_turn ops t s in
      elim (Bool-cases s'.app.should_quit) [
        | inl over ↦ absurd (ground (arith, over, goes_on))
        | inr on ↦
            let same : session ops (t ∷ before) s ≡ session ops before s' = rw on refl in
            rw on (
              session-ends before after s' n gone key (ap (λ r. r.1) (sym same) ∙ goes_on)
                (subst (λ (r : System S × Bool). IsLast r.0 n gone key) same last))
      ]
