-- ===== src/Transport/Heard.antt =====
-- What the messages of a turn leave in a connection.
use lspgraph.Base.{
  ℕ, ◌+◌, ◌<◌, true, false, Option, none, some, List, [], ◌∷◌, Bytes, Text, codes, ◌≡◌, refl, ap,
  ◌∙◌, ℕ_discrete, arith, if◌then◌else◌, Option-cases, inl, inr,
}
use lspgraph.Base.Map.{get, remove, get-remove, get-insert_self, get-insert_other}
use lspgraph.Error.{ok}
use lspgraph.Json
use lspgraph.Json.{Value, Signed, pos, negsuc, as_str, ◌>>=◌}
use lspgraph.Transport.{
  Connection, send_request, dispatch, deliver, serve_method, write, write_all, register,
  request_message, response_id, message_id, null_reply,
}
use lspgraph.Transport.Answers.{answers, or_else, first_answer, dispatch-Hears, write-IsAlike}
use lspgraph.Transport.Callers.{entry_at, mail_at}
use lspgraph.Transport.Listed.{still_registered, heard_answer, nobody_hears}
use lspgraph.Transport.Loop.{handle, handle_value}
use lspgraph.Transport.Stream.{handle_all}

-- The entries under a number, where `answer` came so far.
pub record Stands (id : ℕ) (answer : Option Value) (c : Connection) : Type 0 where
  pub mail : mail_at id c ≡ answer
  pub entry : entry_at id c ≡ still_registered true false answer

or_else-first :
    (id : ℕ) (answer : Option Value) (msg : Value) (ms : List Value)
    → or_else (or_else answer (if answers id msg then some msg else none)) (first_answer id ms)
      ≡ or_else answer (first_answer id (msg ∷ ms))
unfolding first_answer
or_else-first id none msg ms = ground arith
or_else-first id (some m) msg ms = refl

-- No number past the last that was drawn has an entry.
abbrev pub IsFresh : Connection → Type 0
IsFresh c = (id : ℕ) → c.next_id < id → (entry_at id c ≡ none) × (mail_at id c ≡ none)

deliver-writes : (c : Connection) (id : Signed) (msg : Value) → (deliver c id msg).writes ≡ c.writes
unfolding deliver
deliver-writes c (pos n) msg = elim (Option-cases (get ℕ_discrete n c.pending)) [
  | inl nobody ↦ rw (nobody, deliver)
  | inr (w, waits) ↦ rw (waits, deliver)
]
deliver-writes c (negsuc n) msg = refl

pub removed-IsFresh :
    (c : Connection) (id : ℕ)
    → IsFresh c
    → IsFresh (record c { pending = remove ℕ_discrete id c.pending })
removed-IsFresh c id fresh j later =
    (ground (arith, get-remove ℕ_discrete id j c.pending, (fresh j later).0), (fresh j later).1)

module _ (from_slice : Bytes → Option Value) where
  abbrev pub cons_value : Option Value → List Value → List Value
  cons_value none vs = vs
  cons_value (some v) vs = v ∷ vs

  -- The values of the bodies that are JSON.
  abbrev pub values : List Bytes → List Value
  values [] = []
  values (p ∷ ps) = cons_value (from_slice p) (values ps)

module _ (to_vec : Value → Bytes) where
  dispatch-Stands :
      (id : ℕ) (answer : Option Value) (c : Connection) (msg : Value)
      → Stands id answer c
      → Stands id
          (or_else answer (if answers id msg then some msg else none))
          (dispatch to_vec c msg)
  dispatch-Stands id answer c msg s =
      let heard = dispatch-Hears to_vec c msg in
      let next = heard_answer (answers id msg) false msg answer in
      record {
        mail = heard.mailboxes id ∙ rw (s.entry, s.mail) next.0;
        entry = heard.pending id ∙ rw s.entry next.1;
      }

  -- The values handled in order.
  abbrev pub dispatch_all : Connection → List Value → Connection
  dispatch_all c [] = c
  dispatch_all c (v ∷ vs) = dispatch_all (dispatch to_vec c v) vs

  pub dispatch_all-Stands :
      (id : ℕ) (c : Connection) (vs : List Value) (answer : Option Value)
      → Stands id answer c
      → Stands id (or_else answer (first_answer id vs)) (dispatch_all c vs)
  unfolding first_answer
  dispatch_all-Stands id c [] none s = s
  dispatch_all-Stands id c [] (some m) s = s
  dispatch_all-Stands id c (v ∷ vs) answer s =
      let sooner = or_else answer (if answers id v then some v else none) in
      rw (← or_else-first id answer v vs)
        (dispatch_all-Stands id (dispatch to_vec c v) vs sooner (dispatch-Stands id answer c v s))

  dispatch-IsFresh : (c : Connection) (msg : Value) → IsFresh c → IsFresh (dispatch to_vec c msg)
  dispatch-IsFresh c msg fresh id later =
      let heard = dispatch-Hears to_vec c msg in
      let before = fresh id (omega (arith, heard.next_id)) in
      let after =
        nobody_hears (answers id msg) msg (entry_at id c) (mail_at id c) before.0 before.1 in
      (heard.pending id ∙ after.0, heard.mailboxes id ∙ after.1)

  pub dispatch_all-IsFresh :
      (c : Connection) (vs : List Value)
      → IsFresh c
      → IsFresh (dispatch_all c vs) × ((dispatch_all c vs).next_id ≡ c.next_id)
  dispatch_all-IsFresh c [] fresh = (fresh, refl)
  dispatch_all-IsFresh c (v ∷ vs) fresh =
      let rest = dispatch_all-IsFresh (dispatch to_vec c v) vs (dispatch-IsFresh c v fresh) in
      (rest.0, rest.1 ∙ (dispatch-Hears to_vec c v).next_id)

  write-taken :
      (c : Connection) (msg : Value)
      → c.writes ≡ []
      → ((write to_vec c msg).0.writes ≡ []) × ((write to_vec c msg).1 ≡ ok tt)
  unfolding write write_all
  write-taken c msg h = rw (h, write_all) (h, refl)

  serve_method-writes :
      (c : Connection) (id : Option Value) (method : Text) (msg : Value)
      → c.writes ≡ []
      → (serve_method to_vec c id method msg).writes ≡ []
  unfolding serve_method
  serve_method-writes c (some id) method msg h = (write-taken c (null_reply id) h).0
  serve_method-writes c none method msg h = h

  dispatch-writes :
      (c : Connection) (msg : Value) → c.writes ≡ [] → (dispatch to_vec c msg).writes ≡ []
  unfolding dispatch
  dispatch-writes c msg h = by_id (response_id msg) refl
    where
      by_method :
          (m : Option Text)
          → response_id msg ≡ none
          → (Json.get msg (codes "method") >>= as_str) ≡ m
          → (dispatch to_vec c msg).writes ≡ []
      by_method none e k = rw (e, k, dispatch) h
      by_method (some m) e k = rw (e, k, dispatch) (serve_method-writes c (message_id msg) m msg h)

      by_id : (r : Option Signed) → response_id msg ≡ r → (dispatch to_vec c msg).writes ≡ []
      by_id none e = by_method (Json.get msg (codes "method") >>= as_str) e refl
      by_id (some id) e = rw (e, dispatch) (deliver-writes c id msg ∙ h)

  pub dispatch_all-writes :
      (c : Connection) (vs : List Value) → c.writes ≡ [] → (dispatch_all c vs).writes ≡ []
  dispatch_all-writes c [] h = h
  dispatch_all-writes c (v ∷ vs) h =
      dispatch_all-writes (dispatch to_vec c v) vs (dispatch-writes c v h)

  -- The connection behind a message that was sent, with the number of the request.
  pub sent-IsFresh :
      (c : Connection) (method : Text) (params : Value)
      → IsFresh c
      → let sent = send_request to_vec c method params in
        IsFresh sent.0 × (sent.0.next_id ≡ c.next_id + 1) × Stands (c.next_id + 1) none sent.0
  unfolding send_request register
  sent-IsFresh c method params fresh =
      let id = c.next_id + 1 in
      let listed = register (record c { next_id = id }) id in
      let alike = write-IsAlike to_vec listed (request_message id method params) in
      (
        λ j later.
            let old = fresh j (omega (arith, alike.next_id)) in
            (
              ap (get ℕ_discrete j) alike.pending
                  ∙ get-insert_other ℕ_discrete id j tt c.pending
                      (λ same. absurd (omega (arith, alike.next_id)))
                  ∙ old.0,
              ap (get ℕ_discrete j) alike.mailboxes ∙ old.1,
            ),
        alike.next_id,
        record {
          mail = ap (get ℕ_discrete id) alike.mailboxes ∙ (fresh id (omega arith)).1;
          entry = ap (get ℕ_discrete id) alike.pending ∙ get-insert_self ℕ_discrete id tt c.pending;
        },
      )

  pub send-taken :
      (c : Connection) (method : Text) (params : Value)
      → c.writes ≡ []
      → let sent = send_request to_vec c method params in (sent.0.writes ≡ []) × (sent.2 ≡ ok tt)
  unfolding send_request register
  send-taken c method params h =
      let id = c.next_id + 1 in
      write-taken (register (record c { next_id = id }) id) (request_message id method params) h

module _ (to_vec : Value → Bytes) (from_slice : Bytes → Option Value) where
  pub handle_all-values :
      (c : Connection) (ps : List Bytes)
      → handle_all to_vec from_slice c ps ≡ dispatch_all to_vec c (values from_slice ps)
  unfolding handle
  handle_all-values c [] = refl
  handle_all-values c (p ∷ ps) = by_value (from_slice p) (λ c. handle_all-values c ps)
    where
      by_value :
          (v : Option Value)
          → ((c : Connection)
              → handle_all to_vec from_slice c ps ≡ dispatch_all to_vec c (values from_slice ps))
          → handle_all to_vec from_slice (handle_value to_vec from_slice c v) ps
            ≡ dispatch_all to_vec c (cons_value from_slice v (values from_slice ps))
      by_value none rest = rest c
      by_value (some v) rest = rest (dispatch to_vec c v)
