-- ===== src/Transport/Dispatch.antt =====
-- How a request of the client gets its answer.
use lspgraph.Base.{ℕ, ◌+◌, Text, ◌≡◌, refl, ◌∙◌, if_pos, Bytes, some, ℕ_discrete, true, ap, arith}
use lspgraph.Base.Map.{get, get-insert_self, get-remove}
use lspgraph.Error.{Duration}
use lspgraph.Json.{Value, pos}
use lspgraph.Transport.{
  Connection, response_id, deliver, dispatch, send_request, classify, receive, arrived, timed_out,
  register, request_message,
}
use lspgraph.Transport.Answers.{answers, write-IsAlike, dispatch-Hears}

module _ (to_vec : Value → Bytes) where
  -- A response that comes under the id of a request while its caller waits is what the caller
  -- receives, read as an answer to its method.
  receive-dispatch :
      (c : Connection) (method : Text) (params msg : Value) (timeout : Duration)
      → response_id msg ≡ some (pos (c.next_id + 1))
      → let sent = send_request to_vec c method params in
        (receive (dispatch to_vec sent.0 msg) sent.1 method timeout arrived).1 ≡ classify method msg
  unfolding send_request register receive
  receive-dispatch c method params msg timeout answered =
      let id = c.next_id + 1 in
      let listed = register (record c { next_id = id }) id in
      let alike = write-IsAlike to_vec listed (request_message id method params) in
      let sent = (send_request to_vec c method params).0 in
      let entry : get ℕ_discrete id sent.pending ≡ some tt =
        ap (get ℕ_discrete id) alike.pending ∙ get-insert_self ℕ_discrete id tt c.pending in
      let mine : answers id msg ≡ true = rw answered (ground arith) in
      let found : get ℕ_discrete id (dispatch to_vec sent msg).mailboxes ≡ some msg =
        (dispatch-Hears to_vec sent msg).mailboxes id ∙ rw (mine, entry) refl in
      rw (found, receive) refl

  -- Once the time of a request has run out, a response under its id changes nothing.
  pub dispatch-timed_out :
      (c : Connection) (id : ℕ) (method : Text) (msg : Value) (timeout : Duration)
      → response_id msg ≡ some (pos id)
      → let after = (receive c id method timeout timed_out).0 in dispatch to_vec after msg ≡ after
  unfolding dispatch deliver receive
  dispatch-timed_out c id method msg timeout answers =
      let same = ℕ_discrete id id in
      let gone = get-remove ℕ_discrete id id c.pending ∙ if_pos same refl _ _ in
      rw (answers, dispatch, gone, deliver) refl
