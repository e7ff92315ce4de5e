-- ===== src/Program/Served.antt =====
-- What is under way for the expansion that the interface shows as loading, and that the interface's
-- steps keep it so.
use lspgraph.Program.Reacts.{AnswersTo, IsFatal, IsExpand, handle_key-Reacts, on_event-Reacts}
use lspgraph.Keys.Session.{step, key, event}
use lspgraph.Keys.Requests.{IsSound, step-IsSound}
use lspgraph.Base.{
  subst, inr, false, Bool-cases, [], ◌∷◌, refl, Any-append, Any-append_right, All, All-append, inl,
  true, some, List, ◌≡◌, ◌⊎◌, Any,
}
use lspgraph.Graph.{NodeId}
use lspgraph.Protocol.{restart, shutdown, Request, Event, expand}
use lspgraph.App.{App}
use lspgraph.Program.System.{interact, System, receive_event, press}
use lspgraph.App.Events.{on_event}
use lspgraph.Keys.{handle_key, KeyEvent}

abbrev pub IsOpen : Request → Type 0
IsOpen shutdown = ⊥
IsOpen r = Unit

All-IsOpen : (a b : App) (sent : List Request) → All (IsSound a b) sent → All IsOpen sent
All-IsOpen a b [] h = tt
All-IsOpen a b (Request.search q ∷ rs) (h, hs) = (tt, All-IsOpen a b rs hs)
All-IsOpen a b (Request.seed m ∷ rs) (h, hs) = (tt, All-IsOpen a b rs hs)
All-IsOpen a b (expand id ∷ rs) (h, hs) = (tt, All-IsOpen a b rs hs)
All-IsOpen a b (restart ∷ rs) (h, hs) = (tt, All-IsOpen a b rs hs)
All-IsOpen a b (shutdown ∷ rs) (h, hs) = elim h [ ]

module _ {S : Type 0} where
  -- The session is about to end: a fatal event is under way, or the interface quits.
  abbrev pub IsEnding : System S → Type 0
  IsEnding s = Any IsFatal s.events ⊎ (s.app.should_quit ≡ true)

  -- The expansion of the node is under way: a worker that runs will come to the request, or its answer
  -- will be received, or the session is about to end.
  abbrev pub IsUnderWay : NodeId → System S → Type 0
  IsUnderWay id s =
      ((s.running ≡ true) × Any (IsExpand id) s.requests) ⊎ Any (AnswersTo id) s.events ⊎ IsEnding s

  -- What every step keeps.
  pub record IsServed (s : System S) : Type 0 where
    pub served : (id : NodeId) → s.app.pending ≡ some id → IsUnderWay id s
    pub requests_open : All IsOpen s.requests
    pub ends : s.running ≡ false → IsEnding s

  module _ (s : System S) (b : App) (sent : List Request) where
    -- A step of the interface keeps what is under way, if what it waits for then is, or is asked for.
    interact-IsServed :
        All IsOpen s.requests
        → All IsOpen sent
        → (s.running ≡ false → IsEnding (interact s (b, sent)))
        → ((id : NodeId)
            → b.pending ≡ some id
            → IsUnderWay id (interact s (b, sent)) ⊎ Any (IsExpand id) sent)
        → IsServed (interact s (b, sent))
    interact-IsServed hr hs ends f = record {
      served = λ id h. elim (f id h) [
        | inl u ↦ u
        | inr asked ↦ elim (Bool-cases s.running) [
          | inl up ↦ inl (up, Any-append_right (IsExpand id) s.requests sent asked)
          | inr down ↦ inr (inr (ends down))
        ]
      ];
      requests_open = All-append IsOpen s.requests sent hr hs;
      ends = ends;
    }

    more_requests :
        (id : NodeId)
        → (s.app.should_quit ≡ true → b.should_quit ≡ true)
        → IsUnderWay id s
        → IsUnderWay id (interact s (b, sent))
    more_requests id quits (inl (up, h)) = inl (up, Any-append (IsExpand id) s.requests sent h)
    more_requests id quits (inr (inl h)) = inr (inl h)
    more_requests id quits (inr (inr (inl h))) = inr (inr (inl h))
    more_requests id quits (inr (inr (inr h))) = inr (inr (inr (quits h)))

  pub press-IsServed : (s : System S) (k : KeyEvent) → IsServed s → IsServed (press s k)
  unfolding press step
  press-IsServed s k v =
      let (asks, quits) = handle_key-Reacts s.app k in
      let (b, sent) = handle_key s.app k in
      interact-IsServed s b sent v.requests_open
        (All-IsOpen s.app b sent (step-IsSound s.app (key k)))
        (λ down. elim (v.ends down) [ inl h ↦ inl h | inr h ↦ inr (quits h) ])
        (λ id h. elim (asks id h) [
          | inl waits ↦ inl (more_requests s b sent id quits (v.served id waits))
          | inr asked ↦ inr asked
        ])

  module _ (s : System S) (ev : Event) (events : List Event) (p : s.events ≡ ev ∷ events) where
    abbrev behind : System S
    behind = interact (record s { events = events }) (on_event s.app ev)

    still-IsEnding : IsEnding s → IsEnding behind
    still-IsEnding (inl h) = elim (subst (Any IsFatal) p h) [
      | inl f ↦ inr ((on_event-Reacts s.app ev).2 f)
      | inr g ↦ inl g
    ]
    still-IsEnding (inr h) = inr ((on_event-Reacts s.app ev).1 h)

    still-IsUnderWay :
        (id : NodeId) → (AnswersTo id ev → ⊥) → IsUnderWay id s → IsUnderWay id behind
    still-IsUnderWay id h (inl (up, asked)) = inl (up, Any-append (IsExpand id) s.requests _ asked)
    still-IsUnderWay id h (inr (inl answered)) = elim (subst (Any (AnswersTo id)) p answered) [
      | inl now ↦ elim (h now) [ ]
      | inr later ↦ inr (inl later)
    ]
    still-IsUnderWay id h (inr (inr e)) = inr (inr (still-IsEnding e))

    received-IsServed : IsServed s → IsServed behind
    unfolding step
    received-IsServed v =
        let (b, sent) = on_event s.app ev in
        interact-IsServed (record s { events = events }) b sent v.requests_open
          (All-IsOpen s.app b sent (step-IsSound s.app (event ev)))
          (λ down. still-IsEnding (v.ends down))
          (λ id h. elim ((on_event-Reacts s.app ev).0 id h) [
            | inl (waits, open_) ↦ inl (still-IsUnderWay id open_ (v.served id waits))
            | inr asked ↦ inr asked
          ])

  pub receive_event-IsServed : (s : System S) → IsServed s → IsServed (receive_event s)
  unfolding receive_event
  receive_event-IsServed s v =
      elim s.events
          as (λ x.
            s.events ≡ x
            → IsServed (elim x [
              | [] ↦ s
              | ev ∷ events ↦ interact (record s { events = events }) (on_event s.app ev)
            ])) [ [] ↦ λ p. v | ev ∷ events ↦ λ p. received-IsServed s ev events p v ]
        refl
