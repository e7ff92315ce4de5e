-- ===== src/Program/Kept.antt =====
-- What the session of crates/lspgraph-tui/src/main.rs keeps of the engine: what the worker keeps.
use lspgraph.Base.{
  ℕ, zero, suc, Bool, true, false, not, ◌&&◌, Option, none, some, List, [], ◌∷◌, ◌≡◌, refl, sym,
  ◌∙◌, subst, arith, Bool-cases, inl, inr, if◌then◌else◌,
}
use lspgraph.Protocol.{Request, Event}
use lspgraph.Keys.{KeyEvent}
use lspgraph.Worker.{EngineOps}
use lspgraph.Worker.Keeps.{OpsKeep, serve-Keeps}
use lspgraph.App.Events.{on_event}
use lspgraph.Program.System.{
  interact, disconnected, System, receive_event, drain_events, end_drain, frame, press, work,
}
use lspgraph.Program.Session.{Turn, frame_of, worker, take_turn, session}

module _ {S : Type 0} where
  receive_event-engine : (s : System S) → (receive_event s).engine ≡ s.engine
  unfolding receive_event
  receive_event-engine s =
      let next : List Event → System S = λ events. elim events [
        | [] ↦ s
        | ev ∷ rest ↦ interact (record s { events = rest }) (on_event s.app ev)
      ] in
      elim s.events as (λ events. (next events).engine ≡ s.engine) [ [] ↦ refl | ev ∷ rest ↦ refl ]

  drain_events-engine : (n : ℕ) (s : System S) → (drain_events n s).engine ≡ s.engine
  unfolding drain_events
  drain_events-engine zero s = refl
  drain_events-engine (suc n) s = drain_events-engine n (receive_event s) ∙ receive_event-engine s

  end_drain-engine : (gone : Bool) (s : System S) → (end_drain gone s).engine ≡ s.engine
  unfolding end_drain
  end_drain-engine gone s =
      let next : List Event → System S = λ events. elim events [
        | [] ↦ if gone && not s.running then disconnected s else s
        | ev ∷ rest ↦ s
      ] in
      elim s.events as (λ events. (next events).engine ≡ s.engine) [
        | [] ↦ elim (Bool-cases (gone && not s.running)) [ inl c ↦ rw c refl | inr c ↦ rw c refl ]
        | ev ∷ rest ↦ refl
      ]

  frame-engine :
      (n : ℕ) (gone : Bool) (key : Option KeyEvent) (s : System S)
      → (frame n gone key s).engine ≡ s.engine
  unfolding frame press
  frame-engine n gone none s = end_drain-engine gone (drain_events n s) ∙ drain_events-engine n s
  frame-engine n gone (some key) s =
      end_drain-engine gone (drain_events n s) ∙ drain_events-engine n s

module _ {S : Type 0} (ops : EngineOps S) (Keeps : S → Type 0) (keep : OpsKeep ops Keeps) where
  work-Keeps : (s : System S) → Keeps s.engine → Keeps (work ops s).engine
  unfolding work
  work-Keeps s h = by_requests s.requests refl
    where
      by_requests : (rs : List Request) → s.requests ≡ rs → Keeps (work ops s).engine
      by_requests [] e = rw (e, work) h
      by_requests (r ∷ rs) e = rw (e, work) (serve-Keeps ops Keeps s.engine (r ∷ []) keep h)

  take_turn-Keeps : (t : Turn) (s : System S) → Keeps s.engine → Keeps (take_turn ops t s).engine
  unfolding take_turn
  take_turn-Keeps (frame_of n gone key) s h = subst Keeps (sym (frame-engine n gone key s)) h
  take_turn-Keeps worker s h = by_running s.running
    where
      by_running : (b : Bool) → Keeps (if b then work ops s else s).engine
      by_running true = work-Keeps s h
      by_running false = h

  pub session-Keeps :
      (turns : List Turn) (s : System S) → Keeps s.engine → Keeps (session ops turns s).0.engine
  unfolding session
  session-Keeps [] s h = h
  session-Keeps (t ∷ turns) s h =
      let h' = take_turn-Keeps t s h in
      ground (arith, h', session-Keeps turns (take_turn ops t s) h')
