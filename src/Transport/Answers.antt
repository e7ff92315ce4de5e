-- ===== src/Transport/Answers.antt =====
-- What the operations of the connection do to the entries under one id, and which of the messages
-- that the reader handles is the answer to a request.
use lspgraph.Base.{
  ℕ, ◌==◌, Bool, true, false, Option, none, some, List, [], ◌∷◌, ◌++◌, Bytes, ◌≡◌, refl, arith,
  if◌then◌else◌, ℕ_discrete, inl, inr, Option-cases, Text, codes,
}
use lspgraph.Base.Map.{get, get-insert, get-remove}
use lspgraph.Error.{Error, Result, ok, err}
use lspgraph.Json.{Value, Signed, pos, negsuc, ◌>>=◌, as_str}
use lspgraph.Json
use lspgraph.Transport.{
  Connection, WriteEnd, write_all, write, deliver, dispatch, serve_method, response_id, message_id,
  null_reply, taken, failed,
}

-- Whether a message answers the request of an id.
abbrev pub answers_under : ℕ → Option Signed → Bool
answers_under id none = false
answers_under id (some (pos n)) = n == id
answers_under id (some (negsuc n)) = false

abbrev pub answers : ℕ → Value → Bool
answers id msg = answers_under id (response_id msg)

abbrev pub or_else : Option Value → Option Value → Option Value
or_else none o = o
or_else (some v) o = some v

-- The first of the messages that answers the request.
unfoldable pub first_answer : ℕ → List Value → Option Value
first_answer id [] = none
first_answer id (m ∷ ms) = if answers id m then some m else first_answer id ms

pub first_answer-append :
    (id : ℕ) (ms : List Value) (m : Value)
    → first_answer id (ms ++ m ∷ [])
      ≡ or_else (first_answer id ms) (if answers id m then some m else none)
unfolding first_answer
first_answer-append id [] m = refl
first_answer-append id (x ∷ ms) m = ground (arith, first_answer-append id ms m)

-- The entries of a connection that requests turn on are those of another.
pub record IsAlike (c c' : Connection) : Type 0 where
  pub next_id : c'.next_id ≡ c.next_id
  pub pending : c'.pending ≡ c.pending
  pub mailboxes : c'.mailboxes ≡ c.mailboxes

write_all-IsAlike :
    (c : Connection) (bytes : Bytes) (ws : List WriteEnd) → IsAlike c (write_all c bytes ws).0
unfolding write_all
write_all-IsAlike c bytes [] = record { next_id = refl; pending = refl; mailboxes = refl }
write_all-IsAlike c bytes (taken ∷ ws) = record { next_id = refl; pending = refl; mailboxes = refl }
write_all-IsAlike c bytes (failed n e ∷ ws) = record {
  next_id = refl;
  pending = refl;
  mailboxes = refl;
}

-- What is under an id once a message came.
abbrev pub mail_after : Bool → Option (Unit {0}) → Value → Option Value → Option Value
mail_after true (some _) msg old = some msg
mail_after true none msg old = old
mail_after false waits msg old = old

pub record Hears (c : Connection) (msg : Value) (c' : Connection) : Type 0 where
  pub next_id : c'.next_id ≡ c.next_id
  pub pending :
      (id : ℕ)
      → get ℕ_discrete id c'.pending
        ≡ (if answers id msg then none else get ℕ_discrete id c.pending)
  pub mailboxes :
      (id : ℕ)
      → get ℕ_discrete id c'.mailboxes
        ≡ mail_after
            (answers id msg)
            (get ℕ_discrete id c.pending)
            msg
            (get ℕ_discrete id c.mailboxes)

IsAlike-Hears :
    (c c' : Connection) (msg : Value)
    → IsAlike c c'
    → ((id : ℕ) → answers id msg ≡ false)
    → Hears c msg c'
IsAlike-Hears c c' msg h no_answer = record {
  next_id = h.next_id;
  pending = λ id. rw (no_answer id, h.pending) refl;
  mailboxes = λ id. rw (no_answer id, h.mailboxes) refl;
}

deliver-Hears :
    (c : Connection) (n : ℕ) (msg : Value)
    → response_id msg ≡ some (pos n)
    → Hears c msg (deliver c (pos n) msg)
unfolding deliver
deliver-Hears c n msg h = elim (Option-cases (get ℕ_discrete n c.pending)) [
  | inl nobody ↦
      rw (nobody, deliver)
        (record {
          next_id = refl;
          pending = λ id. rw h (ground (arith, nobody));
          mailboxes = λ id. rw h (ground (arith, nobody));
        })
  | inr (w, waits) ↦
      rw (waits, deliver)
        (record {
          next_id = refl;
          pending = λ id. rw h (ground (arith, get-remove ℕ_discrete n id c.pending));
          mailboxes =
              λ id. rw h (ground (arith, waits, get-insert ℕ_discrete n id msg c.mailboxes));
        })
]

-- The error of a write, if there is one.
abbrev pub IsIo : Result {0} Unit → Type 0
IsIo (err (Error.io e)) = Unit
IsIo (err e) = ⊥
IsIo (ok u) = Unit

write_all-IsIo :
    (c : Connection) (bytes : Bytes) (ws : List WriteEnd) → IsIo (write_all c bytes ws).1
unfolding write_all
write_all-IsIo c bytes [] = tt
write_all-IsIo c bytes (taken ∷ ws) = tt
write_all-IsIo c bytes (failed n e ∷ ws) = tt

module _ (to_vec : Value → Bytes) where
  pub write-IsIo : (c : Connection) (msg : Value) → IsIo (write to_vec c msg).1
  unfolding write
  write-IsIo c msg = write_all-IsIo c _ c.writes

  pub write-IsAlike : (c : Connection) (msg : Value) → IsAlike c (write to_vec c msg).0
  unfolding write
  write-IsAlike c msg = write_all-IsAlike c _ c.writes

  serve_method-IsAlike :
      (c : Connection) (id : Option Value) (method : Text) (msg : Value)
      → IsAlike c (serve_method to_vec c id method msg)
  unfolding serve_method
  serve_method-IsAlike c (some id) method msg = write-IsAlike c (null_reply id)
  serve_method-IsAlike c none method msg = record {
    next_id = refl;
    pending = refl;
    mailboxes = refl;
  }

  serve_other-IsAlike :
      (c : Connection) (method : Option Text) (msg : Value)
      → IsAlike c (elim method [ some m ↦ serve_method to_vec c (message_id msg) m msg | none ↦ c ])
  serve_other-IsAlike c (some m) msg = serve_method-IsAlike c (message_id msg) m msg
  serve_other-IsAlike c none msg = record { next_id = refl; pending = refl; mailboxes = refl }

  pub dispatch-Hears : (c : Connection) (msg : Value) → Hears c msg (dispatch to_vec c msg)
  unfolding dispatch
  dispatch-Hears c msg = by_id (response_id msg) refl
    where
      other : Connection
      other = elim (Json.get msg (codes "method") >>= as_str) [
        | some m ↦ serve_method to_vec c (message_id msg) m msg
        | none ↦ c
      ]

      by_id : (r : Option Signed) → response_id msg ≡ r → Hears c msg (dispatch to_vec c msg)
      by_id none h =
          rw (h, dispatch)
            (IsAlike-Hears c other msg
              (serve_other-IsAlike c (Json.get msg (codes "method") >>= as_str) msg)
              (λ id. rw h refl))
      by_id (some (pos n)) h = rw (h, dispatch) (deliver-Hears c n msg h)
      by_id (some (negsuc n)) h =
          rw (h, dispatch, deliver)
            (IsAlike-Hears c c msg (record { next_id = refl; pending = refl; mailboxes = refl })
              (λ id. rw h refl))
