-- ===== src/Transport/Stepped.antt =====
-- Every step of Transport/Callers keeps the calls and the entries of the connection in line.
use lspgraph.Base.{
  ◌||◌, ℕ, true, some, Bytes, Text, ◌≡◌, ◌≢◌, refl, sym, ap, subst, ◌∙◌, arith, ℕ_discrete,
}
use mathlib.Core.Option
use lspgraph.Base.Map.{
  get, get-map_values, get-insert_self, get-insert_other, get-remove_self, get-remove_other,
}
use lspgraph.Error.{Error, Result, ok, err}
use lspgraph.Json.{Value}
use lspgraph.Transport.{
  Connection, Wait, write, request_message, receive, notify, arrived, timed_out, disconnected,
}
use lspgraph.Transport.Answers.{IsAlike, write-IsAlike, IsIo, write-IsIo, dispatch-Hears}
use lspgraph.Transport.Callers.{
  entry_at, mail_at, call_at, finished_at, registered, waiting, Call, World, finish, after_write,
  hear_call, strand, panic, panics, end_reading, CanWake, send, hear, wake, Step, begins, enlists,
  sends, wakes, hears, tells, ends, Reach, here, next,
}
use lspgraph.Transport.Listed.{
  IsListed, IsPlaced, Explains, answered, expired, abandoned, unsent, gone_early, answered_entry,
  still_registered, either_false, answered_early, heard-IsGood,
}
use lspgraph.Transport.Left.{ended-IsGood, stranded-IsGood}
use lspgraph.Transport.Sound.{
  IsSound, Touches-IsSound, called-le, called-IsPlaced, placed-GoodAt, finished-GoodAt,
  begin-IsSound, enlist-IsSound,
}

-- How a wait ends.
receive-Explains :
    (w : World) (id : ℕ) (call : Call) (wait : Wait)
    → CanWake id w.conn wait
    → IsListed w.reading id call (entry_at id w.conn) (mail_at id w.conn)
    → let r = receive w.conn id call.method call.timeout wait in
      (w.conn.next_id ≡ r.0.next_id)
      × ((j : ℕ) → id ≢ j → get ℕ_discrete j r.0.pending ≡ entry_at j w.conn)
      × (r.0.mailboxes ≡ w.conn.mailboxes)
      × Explains w.reading id (get ℕ_discrete id r.0.pending) (record { call = call; result = r.1 })
unfolding receive
receive-Explains w id call arrived (m, found) l =
    let answer = sym l.answer ∙ found in
    rw (found, receive)
      (
        refl,
        λ j other. refl,
        refl,
        answered m answer
            (answered_early call.late id call.heard m answer (λ late. (l.too_late late).1)) refl
            (l.entry
              ∙ ap (still_registered w.reading (call.late || call.stranded)) answer
              ∙ answered_entry w.reading (call.late || call.stranded) m),
      )
receive-Explains w id call timed_out can l = (
  refl,
  λ j other. get-remove_other ℕ_discrete id j w.conn.pending other,
  refl,
  expired refl (get-remove_self ℕ_discrete id w.conn.pending),
)
receive-Explains w id call disconnected (nobody, nothing) l =
    let none_heard = sym l.answer ∙ nothing in
    let gone = gone_early w.reading (call.late || call.stranded) (
      sym nobody
      ∙ l.entry
      ∙ ap (still_registered w.reading (call.late || call.stranded)) none_heard) in
    let reached = either_false call.late call.stranded gone.1 in
    (refl, λ j other. refl, refl, abandoned gone.0 reached.0 reached.1 none_heard refl nobody)

-- A call that returns.
finish-IsSound :
    (w : World) (id : ℕ) (call : Call) (conn : Connection) (result : Result Value)
    → call_at id w ≡ some call
    → w.conn.next_id ≡ conn.next_id
    → ((j : ℕ) → id ≢ j → get ℕ_discrete j conn.pending ≡ entry_at j w.conn)
    → conn.mailboxes ≡ w.conn.mailboxes
    → Explains w.reading id
        (get ℕ_discrete id conn.pending)
        (record { call = call; result = result })
    → IsSound w
    → IsSound (finish w id call (conn, result))
unfolding finish
finish-IsSound w id call conn result h next_id pending mailboxes explained s =
    let w' = finish w id call (conn, result) in
    Touches-IsSound id w w'
      (record {
        reading = refl;
        next_id = omega arith;
        pending = pending;
        mailboxes = λ j other. ap (get ℕ_discrete j) mailboxes;
        calls = λ j other. get-remove_other ℕ_discrete id j w.calls other;
        finished = λ j other. get-insert_other ℕ_discrete id j _ w.finished other;
      })
      (omega (arith, called-le w id call s h))
      (finished-GoodAt w' id _ (get-remove_self ℕ_discrete id w.calls)
        (get-insert_self ℕ_discrete id _ w.finished) explained)
      s

module _ (to_vec : Value → Bytes) where
  -- The call waits, or returns the error of its write.
  after_write-IsSound :
      (w : World) (id : ℕ) (call : Call) (conn : Connection) (sent : Result {0} Unit)
      → call_at id w ≡ some call
      → call.phase ≡ registered
      → IsAlike w.conn conn
      → IsIo sent
      → IsSound w
      → IsSound (after_write w id call (conn, sent))
  unfolding after_write
  after_write-IsSound w id call conn (err (Error.io e)) h phase alike io s =
      finish-IsSound w id call conn (err (Error.io e)) h (sym alike.next_id)
        (λ j other. ap (get ℕ_discrete j) alike.pending) alike.mailboxes (unsent e refl phase) s
  after_write-IsSound w id call conn (err e) h phase alike io s = absurd io
  after_write-IsSound w id call conn (ok u) h phase alike io s =
      let w' = after_write w id call (conn, ok u) in
      let placed = called-IsPlaced w id call s h in
      let listed : IsListed w.reading id call (entry_at id w.conn) (mail_at id w.conn) =
        subst (λ p. IsPlaced p w.reading id call (entry_at id w.conn) (mail_at id w.conn)) phase
          placed.1 in
      Touches-IsSound id w w'
        (record {
          reading = refl;
          next_id = omega (arith, alike.next_id);
          pending = λ j other. ap (get ℕ_discrete j) alike.pending;
          mailboxes = λ j other. ap (get ℕ_discrete j) alike.mailboxes;
          calls = λ j other. get-insert_other ℕ_discrete id j _ w.calls other;
          finished = λ j other. refl;
        })
        (omega (arith, called-le w id call s h, alike.next_id))
        (placed-GoodAt w' id _ (get-insert_self ℕ_discrete id _ w.calls) placed.0 (record {
          answer = ap (get ℕ_discrete id) alike.mailboxes ∙ listed.answer;
          entry = ap (get ℕ_discrete id) alike.pending ∙ listed.entry;
          too_late = listed.too_late;
          gone = listed.gone;
        }))
        s

  send-IsSound :
      (w : World) (id : ℕ) (call : Call)
      → call_at id w ≡ some call
      → call.phase ≡ registered
      → IsSound w
      → IsSound (send to_vec w id call)
  unfolding send
  send-IsSound w id call h phase s =
      let msg = request_message id call.method call.params in
      let r = write to_vec w.conn msg in
      after_write-IsSound w id call r.0 r.1 h phase (write-IsAlike to_vec w.conn msg)
        (write-IsIo to_vec w.conn msg) s

  IsAlike-IsSound :
      (w : World) (conn : Connection)
      → IsAlike w.conn conn
      → IsSound w
      → IsSound (record w { conn = conn })
  IsAlike-IsSound w conn alike s = record {
    good = λ id. rw (alike.pending, alike.mailboxes) (s.good id);
    fresh = λ id later. s.fresh id (omega (arith, alike.next_id));
  }

  tell-IsSound :
      (w : World) (method : Text) (params : Value)
      → IsSound w
      → IsSound (record w { conn = (notify to_vec w.conn method params).0 })
  unfolding notify
  tell-IsSound w method params s = IsAlike-IsSound w _ (write-IsAlike to_vec w.conn _) s

  wake-IsSound :
      (w : World) (id : ℕ) (call : Call) (wait : Wait)
      → call_at id w ≡ some call
      → call.phase ≡ waiting
      → CanWake id w.conn wait
      → IsSound w
      → IsSound (wake to_vec w id call wait)
  unfolding wake
  wake-IsSound w id call wait h phase can s =
      let placed = called-IsPlaced w id call s h in
      let listed =
        subst (λ p. IsPlaced p w.reading id call (entry_at id w.conn) (mail_at id w.conn)) phase
          placed.1 in
      let r = receive w.conn id call.method call.timeout wait in
      let woken = receive-Explains w id call wait can listed in
      finish-IsSound w id call r.0 r.1 h woken.0 woken.1 woken.2 woken.3 s

  end_reading-IsSound : (w : World) → w.reading ≡ true → IsSound w → IsSound (end_reading w)
  unfolding get
  end_reading-IsSound w reads s = record {
    good = λ id.
        ended-IsGood id w.reading (entry_at id w.conn) (mail_at id w.conn) (call_at id w)
          (finished_at id w) reads (s.good id);
    fresh = s.fresh;
  }

  hear-IsSound :
      (w : World) (msg : Value) → w.reading ≡ true → IsSound w → IsSound (hear to_vec w msg)
  unfolding hear
  hear-IsSound w msg reads s =
      let heard = dispatch-Hears to_vec w.conn msg in
      record {
        good = λ id.
            rw (heard.pending id, heard.mailboxes id, get-map_values)
              (heard-IsGood id msg w.reading (entry_at id w.conn) (mail_at id w.conn) (call_at id w)
                (finished_at id w) reads (s.good id));
        fresh = λ id later. (
          get-map_values ℕ_discrete (hear_call msg) id w.calls
              ∙ ap (Option.map (hear_call msg)) (s.fresh id (omega (arith, heard.next_id))).0,
          (s.fresh id (omega (arith, heard.next_id))).1,
        );
      }

  panic-IsSound : (w : World) → w.reading ≡ true → IsSound w → IsSound (panic w)
  unfolding panic
  panic-IsSound w reads s = record {
    good = λ id. rw get-map_values (
        stranded-IsGood id w.reading (entry_at id w.conn) (mail_at id w.conn) (call_at id w)
          (finished_at id w) reads (s.good id));
    fresh = λ id later. (
      get-map_values ℕ_discrete strand id w.calls ∙ ap (Option.map strand) (s.fresh id later).0,
      (s.fresh id later).1,
    );
  }

  Step-IsSound : {w v : World} → Step to_vec w v → IsSound w → IsSound v
  Step-IsSound (begins w method params timeout) s = begin-IsSound w method params timeout s
  Step-IsSound (enlists w id call h phase) s = enlist-IsSound w id call h phase s
  Step-IsSound (sends w id call h phase) s = send-IsSound w id call h phase s
  Step-IsSound (wakes w id call wait h phase can) s = wake-IsSound w id call wait h phase can s
  Step-IsSound (hears w msg reads) s = hear-IsSound w msg reads s
  Step-IsSound (tells w method params) s = tell-IsSound w method params s
  Step-IsSound (ends w reads) s = end_reading-IsSound w reads s
  Step-IsSound (panics w reads) s = panic-IsSound w reads s

  pub Reach-IsSound : {w v : World} → Reach to_vec w v → IsSound w → IsSound v
  Reach-IsSound here s = s
  Reach-IsSound (next r st) s = Step-IsSound st (Reach-IsSound r s)
