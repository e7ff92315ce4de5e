-- ===== src/Program/Waits.antt =====
-- Nobody waits in vain: the worker's steps, and every session.
use lspgraph.Program.Served.{
  IsOpen, IsEnding, IsUnderWay, IsServed, press-IsServed, receive_event-IsServed,
}
use lspgraph.Program.Reacts.{AnswersTo, IsFatal, IsExpand}
use lspgraph.Base.{
  ap, subst, inr, Bool, false, [], ◌∷◌, ◌++◌, refl, Any-append, Any-append_right, All, inl, true,
  some, List, ◌≡◌, Any,
}
use lspgraph.Graph.{NodeId, Expansion}
use lspgraph.Protocol.{restart, shutdown, Request, Event, expand}
use lspgraph.Error.{Result, ok, err}
use lspgraph.Worker.{EngineOps, serve, expand_event}
use lspgraph.Program.System.{
  System, goes_on, work, Step, pressed, received, worked, hung_up, Reach, begin, next,
}

module _ {S : Type 0} where
  -- The worker has done the first request, and its events are under way.
  abbrev done : System S → List Request → S → Bool → List Event → System S
  done s rs engine running events = record s {
    engine = engine;
    requests = rs;
    events = s.events ++ events;
    running = running;
  }

  module _ (s : System S) (r : Request) (rs : List Request) (p : s.requests ≡ r ∷ rs)
      (v : IsServed s) (engine : S) where
    rest-IsOpen : All IsOpen rs
    rest-IsOpen = (subst (All IsOpen) p v.requests_open).1

    done-IsEnding :
        (running : Bool) (events : List Event)
        → IsEnding s
        → IsEnding (done s rs engine running events)
    done-IsEnding running events (inl h) = inl (Any-append IsFatal s.events events h)
    done-IsEnding running events (inr h) = inr h

    done-IsUnderWay :
        (ev : Event) (id : NodeId)
        → (r ≡ expand id → AnswersTo id ev)
        → IsUnderWay id s
        → IsUnderWay id (done s rs engine true (ev ∷ []))
    done-IsUnderWay ev id answers (inl (up, asked)) = elim (subst (Any (IsExpand id)) p asked) [
      | inl now ↦ inr (inl (Any-append_right (AnswersTo id) s.events (ev ∷ []) (inl (answers now))))
      | inr later ↦ inl (refl, later)
    ]
    done-IsUnderWay ev id answers (inr (inl h)) =
        inr (inl (Any-append (AnswersTo id) s.events (ev ∷ []) h))
    done-IsUnderWay ev id answers (inr (inr h)) = inr (inr (done-IsEnding true (ev ∷ []) h))

    goes_on-IsServed :
        (ev : Event)
        → ((id : NodeId) → r ≡ expand id → AnswersTo id ev)
        → IsServed (done s rs engine true (ev ∷ []))
    goes_on-IsServed ev answers = record {
      served = λ id h. done-IsUnderWay ev id (answers id) (v.served id h);
      requests_open = rest-IsOpen;
      ends = λ down. cc;
    }

    stops-IsServed : (ev : Event) → IsFatal ev → IsServed (done s rs engine false (ev ∷ []))
    stops-IsServed ev h =
        let ending : IsEnding (done s rs engine false (ev ∷ [])) =
          inl (Any-append_right IsFatal s.events (ev ∷ []) (inl h)) in
        record {
          served = λ id _. inr (inr ending);
          requests_open = rest-IsOpen;
          ends = λ _. ending;
        }

expand-inj : {i j : NodeId} → expand i ≡ expand j → i ≡ j
expand-inj {i} same = ap target same
  where
    target : Request → NodeId
    target (expand k) = k
    target r = i

module _ {S : Type 0} (ops : EngineOps S) where
  expand_event-AnswersTo :
      (engine : S) (id : NodeId) (answer : Result Expansion)
      → AnswersTo id (expand_event ops engine id answer)
  unfolding expand_event
  expand_event-AnswersTo engine id (ok exp) = refl
  expand_event-AnswersTo engine id (err e) = refl

  taken-IsServed :
      (s : System S) (r : Request) (rs : List Request)
      → s.requests ≡ r ∷ rs
      → IsServed s
      → let (engine, events) = serve ops s.engine (r ∷ []) in
        IsServed (done s rs engine (goes_on r) events)
  unfolding serve
  taken-IsServed s (expand id) rs p v =
      let (engine, answer) = ops.expand s.engine id in
      goes_on-IsServed s (expand id) rs p v engine (expand_event ops engine id answer) (λ j same.
        subst (λ j. AnswersTo j (expand_event ops engine id answer)) (expand-inj same)
          (expand_event-AnswersTo engine id answer))
  taken-IsServed s (Request.search q) rs p v = goes_on-IsServed s _ rs p v _ _ (λ j same. cc)
  taken-IsServed s (Request.seed m) rs p v = goes_on-IsServed s _ rs p v _ _ (λ j same. cc)
  taken-IsServed s restart rs p v = stops-IsServed s restart rs p v s.engine _ tt
  taken-IsServed s shutdown rs p v = elim (subst (All IsOpen) p v.requests_open).0 [ ]

  work-IsServed : (s : System S) → IsServed s → IsServed (work ops s)
  unfolding work
  work-IsServed s v =
      elim s.requests
          as (λ x.
            s.requests ≡ x
            → IsServed (elim x [
              | [] ↦ s
              | r ∷ requests ↦
                  let (engine, events) = serve ops s.engine (r ∷ []) in
                  done s requests engine (goes_on r) events
            ])) [ [] ↦ λ p. v | r ∷ rs ↦ λ p. taken-IsServed s r rs p v ]
        refl

  Step-IsServed : {s t : System S} → Step ops s t → IsServed s → IsServed t
  Step-IsServed {s} (pressed k) v = press-IsServed s k v
  Step-IsServed {s} received v = receive_event-IsServed s v
  Step-IsServed {s} (worked up) v = work-IsServed s v
  Step-IsServed {s} (hung_up down none_left) v = record {
    served = λ id h. inr (inr (inr refl));
    requests_open = v.requests_open;
    ends = λ h. inr refl;
  }

  Reach-IsServed : {engine : S} {s : System S} → Reach ops engine s → IsServed s
  Reach-IsServed begin = record { served = λ id h. cc; requests_open = tt; ends = λ h. cc }
  Reach-IsServed (next r st) = Step-IsServed st (Reach-IsServed r)

  -- Nobody waits in vain. In whatever order keys, events and the worker take turns: while the
  -- interface waits for the expansion of a node, a worker that runs has the request before it, or the
  -- answer is under way to the interface, or the session is about to end, by a fatal event under way
  -- or the interface that quits.
  pub Reach-IsUnderWay :
      {engine : S} {s : System S}
      → Reach ops engine s
      → (id : NodeId) → s.app.pending ≡ some id
      → IsUnderWay id s
  Reach-IsUnderWay r = (Reach-IsServed r).served
