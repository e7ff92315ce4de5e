-- ===== src/Program/Frames.antt =====
-- The interface's loop is one of the orders in which the steps of a session may happen.
use lspgraph.Base.{
  ℕ, zero, suc, Bool, true, false, not, ◌&&◌, Option, none, some, List, [], ◌∷◌, ◌≡◌, refl, arith,
  inl, inr, Bool-cases, if◌then◌else◌,
}
use lspgraph.Keys.{KeyEvent}
use lspgraph.Worker.{EngineOps}
use lspgraph.Program.System.{
  System, receive_event, drain_events, disconnected, end_drain, frame, work, Reach, next, received,
  pressed, worked, hung_up,
}
use lspgraph.Program.Session.{Turn, frame_of, worker, take_turn, session}

module _ {S : Type 0} (ops : EngineOps S) {engine : S} where
  drain_events-Reach :
      (n : ℕ) (s : System S) → Reach ops engine s → Reach ops engine (drain_events n s)
  unfolding drain_events
  drain_events-Reach zero s r = r
  drain_events-Reach (suc n) s r = drain_events-Reach n (receive_event s) (next r received)

  end_drain-Reach :
      (gone : Bool) (s : System S) → Reach ops engine s → Reach ops engine (end_drain gone s)
  unfolding end_drain
  end_drain-Reach gone s r =
      elim s.events
          as (λ x.
            s.events ≡ x
            → Reach ops engine (elim x [
              | [] ↦ if gone && not s.running then disconnected s else s
              | ev ∷ events ↦ s
            ])) [
              | [] ↦ λ p. elim (Bool-cases (gone && not s.running)) [
                | inl c ↦ rw c (next r (hung_up (ground arith) p))
                | inr c ↦ rw c r
              ]
              | ev ∷ events ↦ λ p. r
            ]
        refl

  frame-Reach :
      (n : ℕ) (gone : Bool) (k : Option KeyEvent) (s : System S)
      → Reach ops engine s
      → Reach ops engine (frame n gone k s)
  unfolding frame
  frame-Reach n gone none s r = end_drain-Reach gone _ (drain_events-Reach n s r)
  frame-Reach n gone (some k) s r =
      next (end_drain-Reach gone _ (drain_events-Reach n s r)) (pressed k)

  take_turn-Reach :
      (t : Turn) (s : System S) → Reach ops engine s → Reach ops engine (take_turn ops t s)
  unfolding take_turn
  take_turn-Reach (frame_of n gone k) s r = frame-Reach n gone k s r
  take_turn-Reach worker s r = on_running s.running refl
    where
      on_running : (b : Bool) → s.running ≡ b → Reach ops engine (if b then work ops s else s)
      on_running true up = next r (worked up)
      on_running false down = r

  -- The loop of `run`, with the worker's turns between its frames, is one of the orders that the steps
  -- of a session allow: from a state of a session it leads to another.
  session-Reach :
      (turns : List Turn) (s : System S)
      → Reach ops engine s
      → Reach ops engine (session ops turns s).0
  unfolding session
  session-Reach [] s r = r
  session-Reach (t ∷ turns) s r =
      let r' = take_turn-Reach t s r in
      ground (arith, r', session-Reach turns (take_turn ops t s) r')
