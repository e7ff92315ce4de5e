-- ===== src/Transport/Numbers.antt =====
-- A request on a link draws one number, whatever the reader reads meanwhile.
use lspgraph.Base.{
  ℕ, zero, suc, ◌+◌, Option, none, some, List, [], ◌∷◌, Bytes, Text, ◌≡◌, refl, ◌∙◌, Bool-cases,
  Option-cases, inl, inr, length,
}
use lspgraph.Error.{Result, ok, err, Duration}
use lspgraph.Json.{Value}
use lspgraph.Codec.{Decoder, next_message, push}
use lspgraph.Codec
use lspgraph.Transport.{
  Connection, Wait, arrived, timed_out, disconnected, receive, send_request, register,
  request_message,
}
use lspgraph.Transport.Answers.{dispatch-Hears, write-IsAlike}
use lspgraph.Transport.Callers.{entry_at, mail_at}
use lspgraph.Transport.Loop.{
  ReadEnd, reads, ended, panicked, still_reads, handle, handle_value, drain, read_on,
}
use lspgraph.Transport.Link.{
  Link, found_by, after_turn, read_turn, take_turn, await, after_send, request,
}

receive-next_id :
    (c : Connection) (id : ℕ) (method : Text) (timeout : Duration) (wait : Wait)
    → (receive c id method timeout wait).0.next_id ≡ c.next_id
unfolding receive
receive-next_id c id method timeout arrived = elim (Option-cases (mail_at id c)) [
  | inl nothing ↦ rw (nothing, receive)
  | inr (m, found) ↦ rw (found, receive)
]
receive-next_id c id method timeout timed_out = refl
receive-next_id c id method timeout disconnected = refl

module _ (to_vec : Value → Bytes) (from_slice : Bytes → Option Value) where
  handle-next_id :
      (c : Connection) (v : Option Value) → (handle_value to_vec from_slice c v).next_id ≡ c.next_id
  handle-next_id c none = refl
  handle-next_id c (some v) = (dispatch-Hears to_vec c v).next_id

  drain-next_id :
      (n : ℕ) (c : Connection) (d : Decoder) → (drain to_vec from_slice n c d).0.next_id ≡ c.next_id
  unfolding drain handle
  drain-next_id zero c d = refl
  drain-next_id (suc n) c d =
      by_outcome (next_message d).0 (next_message d).1 (λ c d. drain-next_id n c d)
    where
      by_outcome :
          (d' : Decoder) (o : Codec.Outcome)
          → ((c : Connection) (d : Decoder) → (drain to_vec from_slice n c d).0.next_id ≡ c.next_id)
          → (let r : Connection × Decoder × ReadEnd = elim o [
            | Codec.Outcome.ok none ↦ (c, d', reads)
            | Codec.Outcome.ok (some body) ↦
                drain to_vec from_slice n (handle to_vec from_slice c body) d'
            | Codec.Outcome.err e ↦ (c, d', ended)
            | Codec.Outcome.panics ↦ (c, d', panicked)
          ] in
              r.0.next_id)
            ≡ c.next_id
      by_outcome d' (Codec.Outcome.ok none) rest = refl
      by_outcome d' (Codec.Outcome.ok (some body)) rest =
          rest (handle to_vec from_slice c body) d' ∙ handle-next_id c (from_slice body)
      by_outcome d' (Codec.Outcome.err e) rest = refl
      by_outcome d' Codec.Outcome.panics rest = refl

  read_on-next_id :
      (c : Connection) (d : Decoder) (cs : List Bytes)
      → (read_on to_vec from_slice c d cs).0.next_id ≡ c.next_id
  unfolding read_on
  read_on-next_id c d [] = refl
  read_on-next_id c d ([] ∷ cs) = refl
  read_on-next_id c d ((b ∷ chunk) ∷ cs) =
      let pushed = push d (b ∷ chunk) in
      let r = drain to_vec from_slice (suc (length pushed.buf)) c pushed in
      let drained : r.0.next_id ≡ c.next_id = drain-next_id (suc (length pushed.buf)) c pushed in
      elim (Bool-cases (still_reads r.2)) [
        | inl alive ↦ rw alive (read_on-next_id r.0 r.1 cs ∙ drained)
        | inr over ↦ rw over drained
      ]

  after_turn-next_id :
      (l : Link) (r : Connection × Decoder × ReadEnd)
      → (after_turn to_vec from_slice l r).conn.next_id ≡ r.0.next_id
  after_turn-next_id l (c, d, reads) = refl
  after_turn-next_id l (c, d, ended) = refl
  after_turn-next_id l (c, d, panicked) = refl

  take_turn-next_id :
      (l : Link) (turns : List (List Bytes))
      → (take_turn to_vec from_slice l turns).conn.next_id ≡ l.conn.next_id
  unfolding take_turn read_turn
  take_turn-next_id l [] = refl
  take_turn-next_id l (cs ∷ turns) = elim (Bool-cases l.reading) [
    | inl alive ↦
        rw alive
          (after_turn-next_id (record l { turns = turns }) _ ∙ read_on-next_id l.conn l.decoder cs)
    | inr over ↦ rw over
  ]

  await-next_id :
      (l : Link) (id : ℕ) (method : Text) (timeout : Duration)
      → (await to_vec from_slice l id method timeout).0.conn.next_id ≡ l.conn.next_id
  unfolding await
  await-next_id l id method timeout =
      receive-next_id l.conn id method timeout (found_by (mail_at id l.conn) (entry_at id l.conn))

  after_send-next_id :
      (l : Link) (method : Text) (timeout : Duration) (c : Connection) (id : ℕ)
      (sent : Result {0} Unit)
      → (after_send to_vec from_slice l method timeout (c, id, sent)).0.conn.next_id ≡ c.next_id
  unfolding after_send
  after_send-next_id l method timeout c id (err e) = refl
  after_send-next_id l method timeout c id (ok u) =
      await-next_id (take_turn to_vec from_slice (record l { conn = c }) l.turns) id method timeout
      ∙ take_turn-next_id (record l { conn = c }) l.turns

  pub request-next_id :
      (l : Link) (method : Text) (params : Value) (timeout : Duration)
      → (request to_vec from_slice l method params timeout).0.conn.next_id ≡ l.conn.next_id + 1
  unfolding request send_request register
  request-next_id l method params timeout =
      let id = l.conn.next_id + 1 in
      let listed = register (record l.conn { next_id = id }) id in
      let r = send_request to_vec l.conn method params in
      after_send-next_id l method timeout r.0 r.1 r.2
      ∙ (write-IsAlike to_vec listed (request_message id method params)).next_id
