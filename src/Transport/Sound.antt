-- ===== src/Transport/Sound.antt =====
-- The calls of Transport/Callers against the entries of the connection, and the steps before a
-- message is written.
use lspgraph.Base.{
  ℕ, ◌+◌, ◌<◌, ◌≤◌, Option, none, some, List, Text, ◌≡◌, ◌≢◌, refl, subst, ◌∙◌, arith, ℕ_discrete,
}
use native.Mathlib.Decide.{dec_lt}
use lspgraph.Base.Map.{get, get-insert_self, get-insert_other}
use lspgraph.Error.{Duration}
use lspgraph.Json.{Value}
use lspgraph.Transport.{WriteEnd, register}
use lspgraph.Transport.Answers.{first_answer}
use lspgraph.Transport.Callers.{
  entry_at, mail_at, call_at, finished_at, drawn, Call, Finished, World, start, begin, enlist,
}
use lspgraph.Transport.Listed.{IsPlaced, Explains, IsGood, newly_registered}

abbrev pub GoodAt : World → ℕ → Type 0
GoodAt w id =
    IsGood w.reading id (entry_at id w.conn) (mail_at id w.conn) (call_at id w) (finished_at id w)

pub record IsSound (w : World) : Type 0 where
  pub good : (id : ℕ) → GoodAt w id
  pub fresh : (id : ℕ) → w.conn.next_id < id → (call_at id w ≡ none) × (finished_at id w ≡ none)

pub start-IsSound : (writes : List WriteEnd) → IsSound (start writes)
unfolding get
start-IsSound writes = record { good = λ id. (refl, refl); fresh = λ id h. (refl, refl) }

-- A step that touches one number.
pub record Touches (target : ℕ) (w w' : World) : Type 0 where
  pub reading : w'.reading ≡ w.reading
  pub next_id : w.conn.next_id ≤ w'.conn.next_id
  pub pending : (id : ℕ) → target ≢ id → entry_at id w'.conn ≡ entry_at id w.conn
  pub mailboxes : (id : ℕ) → target ≢ id → mail_at id w'.conn ≡ mail_at id w.conn
  pub calls : (id : ℕ) → target ≢ id → call_at id w' ≡ call_at id w
  pub finished : (id : ℕ) → target ≢ id → finished_at id w' ≡ finished_at id w

pub Touches-IsSound :
    (target : ℕ) (w w' : World)
    → Touches target w w'
    → target ≤ w'.conn.next_id
    → GoodAt w' target
    → IsSound w
    → IsSound w'
Touches-IsSound target w w' t old good s = record {
  good = λ id. elim (ℕ_discrete target id) [
    | yes same ↦ subst (λ k. GoodAt w' k) same good
    | no other ↦
        rw
          (
            t.reading,
            t.pending id other,
            t.mailboxes id other,
            t.calls id other,
            t.finished id other,
          )
          (s.good id)
  ];
  fresh = λ id later.
      let other : target ≢ id = λ same. absurd (omega arith) in
      let before = s.fresh id (omega (arith, t.next_id)) in
      (t.calls id other ∙ before.0, t.finished id other ∙ before.1);
}

pub called-le :
    (w : World) (id : ℕ) (call : Call) → IsSound w → call_at id w ≡ some call → id ≤ w.conn.next_id
called-le w id call s h = elim (dec_lt w.conn.next_id id) [
  | yes later ↦ absurd (ground (arith, (s.fresh id later).0))
  | no earlier ↦ omega arith
]

-- A call is placed, and has not returned.
pub called-IsPlaced :
    (w : World) (id : ℕ) (call : Call)
    → IsSound w
    → call_at id w ≡ some call
    → (finished_at id w ≡ none)
      × IsPlaced call.phase w.reading id call (entry_at id w.conn) (mail_at id w.conn)
called-IsPlaced w id call s h = by_result (finished_at id w) refl
  where
    by_result :
        (r : Option Finished)
        → finished_at id w ≡ r
        → (finished_at id w ≡ none)
          × IsPlaced call.phase w.reading id call (entry_at id w.conn) (mail_at id w.conn)
    by_result none e = (e, rw (h, e) at (s.good id))
    by_result (some f) e = absurd (rw (h, e) at (s.good id))

pub placed-GoodAt :
    (w : World) (id : ℕ) (call : Call)
    → call_at id w ≡ some call
    → finished_at id w ≡ none
    → IsPlaced call.phase w.reading id call (entry_at id w.conn) (mail_at id w.conn)
    → GoodAt w id
placed-GoodAt w id call h k placed = rw (h, k) placed

pub finished-GoodAt :
    (w : World) (id : ℕ) (f : Finished)
    → call_at id w ≡ none
    → finished_at id w ≡ some f
    → Explains w.reading id (entry_at id w.conn) f
    → GoodAt w id
finished-GoodAt w id f h k explained = rw (h, k) explained

pub begin-IsSound :
    (w : World) (method : Text) (params : Value) (timeout : Duration)
    → IsSound w
    → IsSound (begin w method params timeout)
unfolding begin
begin-IsSound w method params timeout s =
    let id = w.conn.next_id + 1 in
    let new_id = s.fresh id (omega arith) in
    let empty : (entry_at id w.conn ≡ none) × (mail_at id w.conn ≡ none) =
      rw (new_id.0, new_id.1) at (s.good id) in
    Touches-IsSound id w (begin w method params timeout)
      (record {
        reading = refl;
        next_id = omega arith;
        pending = λ j other. refl;
        mailboxes = λ j other. refl;
        calls = λ j other. get-insert_other ℕ_discrete id j _ w.calls other;
        finished = λ j other. refl;
      })
      (omega arith) (rw (get-insert_self, new_id.1) empty) s

pub enlist-IsSound :
    (w : World) (id : ℕ) (call : Call)
    → call_at id w ≡ some call
    → call.phase ≡ drawn
    → IsSound w
    → IsSound (enlist w id call)
unfolding enlist register first_answer
enlist-IsSound w id call h phase s =
    let placed = called-IsPlaced w id call s h in
    let empty : (entry_at id w.conn ≡ none) × (mail_at id w.conn ≡ none) = rw phase at placed.1 in
    Touches-IsSound id w (enlist w id call)
      (record {
        reading = refl;
        next_id = omega arith;
        pending = λ j other. get-insert_other ℕ_discrete id j _ w.conn.pending other;
        mailboxes = λ j other. refl;
        calls = λ j other. get-insert_other ℕ_discrete id j _ w.calls other;
        finished = λ j other. refl;
      })
      (called-le w id call s h)
      (placed-GoodAt (enlist w id call) id _ (get-insert_self ℕ_discrete id _ w.calls) placed.0
        (record {
          answer = empty.1;
          entry = get-insert_self ℕ_discrete id tt w.conn.pending ∙ newly_registered w.reading;
          too_late = λ late. (ground arith, refl);
          gone = λ stuck. cc;
        }))
      s
