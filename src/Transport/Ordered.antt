-- ===== src/Transport/Ordered.antt =====
-- A request on a link (Transport/Link) is one of the orders that the steps of callers and reader allow
-- (Transport/Callers).
use lspgraph.Base.{
  ℕ, ◌+◌, not, Bool, false, Option, some, List, [], Bytes, Text, ◌≡◌, refl, ap, ℕ_discrete,
}
use lspgraph.Base.Map.{get-insert_self}
use lspgraph.Error.{Result, ok, err, Duration}
use lspgraph.Json.{Value}
use lspgraph.Codec.{Decoder}
use lspgraph.Transport.{Connection, write, receive, send_request, request_message}
use lspgraph.Transport.Callers.{
  entry_at, mail_at, finished_at, Call, Finished, World, begin, enlist, finish, after_write, send,
  wake, begins, enlists, sends, wakes, Reach, next, waiting, drawn, registered,
}
use lspgraph.Transport.Link.{Link, found_by, take_turn, await, after_send, request}
use lspgraph.Transport.Came.{Waits, found_by-CanWake, link_of, Comes, take_turn-Comes}

-- A world to which the steps lead, with this connection and a reader that reads or not, where the call
-- of a number has returned this result.
pub record ReturnsIn (to_vec : Value → Bytes) (b : World) (id : ℕ) (c : Connection) (reading : Bool)
    (result : Result Value) : Type 0 where
  pub later : World
  pub steps : Reach to_vec b later
  pub conn : later.conn ≡ c
  pub reads_still : later.reading ≡ reading
  pub finished : (f : Finished) × (finished_at id later ≡ some f) × (f.result ≡ result)

module _ (to_vec : Value → Bytes) (from_slice : Bytes → Option Value) (b : World) (id : ℕ)
    (method : Text) (timeout : Duration) where
  await-ReturnsIn :
      (l : Link)
      → Comes to_vec from_slice b id method timeout l.conn l.reading
      → let r = await to_vec from_slice l id method timeout in
        ReturnsIn to_vec b id r.0.conn r.0.reading r.1
  unfolding await wake finish
  await-ReturnsIn l g =
      let (call, at, phase, m, t) = g.waits in
      let w = g.later in
      let wait = found_by (mail_at id w.conn) (entry_at id w.conn) in
      let same : receive w.conn id call.method call.timeout wait
          ≡ receive l.conn id method timeout (found_by (mail_at id l.conn) (entry_at id l.conn)) =
        λ i.
          receive (g.conn i) id (m i) (t i)
            (found_by (mail_at id (g.conn i)) (entry_at id (g.conn i))) in
      record {
        later = wake to_vec w id call wait;
        steps = next g.steps (wakes w id call wait at phase (found_by-CanWake id w.conn));
        conn = ap (λ q. q.0) same;
        reads_still = g.reads_still;
        finished = (
          record { call = call; result = (receive w.conn id call.method call.timeout wait).1 },
          get-insert_self ℕ_discrete id _ w.finished,
          ap (λ q. q.1) same,
        );
      }

module _ (to_vec : Value → Bytes) (from_slice : Bytes → Option Value) (b : World) (method : Text)
    (timeout : Duration) where
  -- The steps behind the write.
  after_send-ReturnsIn :
      (w : World) (d : Decoder) (turns : List (List Bytes)) (id : ℕ) (call : Call)
      (q : Connection × Result {0} Unit)
      → call.method ≡ method
      → call.timeout ≡ timeout
      → Reach to_vec b (after_write w id call q)
      → let r = after_send to_vec from_slice (link_of w d turns) method timeout (q.0, id, q.1) in
        ReturnsIn to_vec b id r.0.conn r.0.reading r.1
  unfolding after_send after_write finish
  after_send-ReturnsIn w d turns id call (c, err e) m t r = record {
    later = after_write w id call (c, err e);
    steps = r;
    conn = refl;
    reads_still = refl;
    finished =
        (record { call = call; result = err e }, get-insert_self ℕ_discrete id _ w.finished, refl);
  }
  after_send-ReturnsIn w d turns id call (c, ok u) m t r =
      let w' = after_write w id call (c, ok u) in
      let sent : Call = record call { phase = waiting } in
      let waits : Waits id method timeout w' =
        (sent, get-insert_self ℕ_discrete id sent w.calls, refl, m, t) in
      await-ReturnsIn to_vec from_slice b id method timeout
        (take_turn to_vec from_slice (link_of w' d turns) turns)
        (take_turn-Comes to_vec from_slice b id method timeout w' d turns turns r waits)

  -- A request on a link is one of the orders that callers and reader may act in, whatever comes from
  -- the server and however the write ends: from the link of a world to which their steps lead, more of
  -- these steps lead to a world with the connection and the reader that the request leaves, where the
  -- call of the number that was drawn has returned what the request returns.
  pub request-ReturnsIn :
      (w : World) (d : Decoder) (turns : List (List Bytes)) (params : Value)
      → Reach to_vec b w
      → let r = request to_vec from_slice (link_of w d turns) method params timeout in
        ReturnsIn to_vec b (w.conn.next_id + 1) r.0.conn r.0.reading r.1
  unfolding request send_request begin enlist send
  request-ReturnsIn w d turns params r =
      let id = w.conn.next_id + 1 in
      let call : Call = record {
        method = method;
        params = params;
        timeout = timeout;
        phase = drawn;
        late = false;
        stranded = false;
        heard = [];
      } in
      let w₁ = begin w method params timeout in
      let w₂ = enlist w₁ id call in
      let listed : Call = record call { phase = registered; late = not w.reading } in
      let steps =
        next
          (next (next r (begins w method params timeout))
            (enlists w₁ id call (get-insert_self ℕ_discrete id call w.calls) refl))
          (sends w₂ id listed (get-insert_self ℕ_discrete id listed w₁.calls) refl) in
      after_send-ReturnsIn w₂ d turns id listed
        (write to_vec w₂.conn (request_message id method params)) refl refl steps
