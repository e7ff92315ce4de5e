-- ===== src/Transport/Exchange.antt =====
-- What a request on a link gives, by the messages that come while it waits.
use lspgraph.Base.{
  ℕ, ◌+◌, true, Option, none, some, List, [], ◌∷◌, Bytes, Text, All, ◌≡◌, ◌≢◌, refl, sym, subst, ap,
  ◌∙◌, ℕ_discrete, if◌then◌else◌,
}
use lspgraph.Base.Map.{get-remove_self}
use lspgraph.Error.{Error, Result, err, Duration}
use lspgraph.Json.{Value}
use lspgraph.Codec
use lspgraph.Codec.Framing.{Fits}
use lspgraph.Transport.{Connection, classify, send_request, receive}
use lspgraph.Transport.Answers.{first_answer}
use lspgraph.Transport.Callers.{entry_at}
use lspgraph.Transport.Loop.{read_on}
use lspgraph.Transport.Stream.{joined, frames, read_new-frames}
use lspgraph.Transport.Link.{Link, after_turn, read_turn, take_turn, await, after_send, request}
use lspgraph.Transport.Heard.{
  values, Stands, dispatch_all, handle_all-values, dispatch_all-Stands, dispatch_all-IsFresh,
  dispatch_all-writes, removed-IsFresh, sent-IsFresh, send-taken, IsFresh,
}

-- A link between two requests: the reader reads, and stands between two frames; writes succeed.
pub record IsReady (l : Link) : Type 0 where
  pub reading : l.reading ≡ true
  pub decoder : l.decoder ≡ Codec.new
  pub fresh : IsFresh l.conn
  pub writes : l.conn.writes ≡ []

-- What a request gives on the first answer of its turn.
abbrev pub result_of : Text → Duration → Option Value → Result Value
result_of method timeout none = err (Error.timeout method timeout)
result_of method timeout (some m) = classify method m

-- The link and the result, when a request of the number `id` returns.
pub record Returns (id : ℕ) (rest : List (List Bytes)) (outcome : Result Value)
    (r : Link × Result Value) : Type 0 where
  pub result : r.1 ≡ outcome
  pub turns : r.0.turns ≡ rest
  pub number : r.0.conn.next_id ≡ id
  pub entry : entry_at id r.0.conn ≡ none
  pub ready : IsReady r.0

-- Chunks that are whole frames together, however they are cut.
abbrev pub AreWhole : List Bytes → List Bytes → Type 0
AreWhole cs ps = All (λ x. x ≢ []) cs × All Fits ps × (joined cs ≡ frames ps)

module _ (to_vec : Value → Bytes) (from_slice : Bytes → Option Value) where
  await-Returns :
      (l : Link) (id : ℕ) (method : Text) (timeout : Duration) (answer : Option Value)
      → IsReady l
      → l.conn.next_id ≡ id
      → Stands id answer l.conn
      → Returns id l.turns
          (result_of method timeout answer)
          (await to_vec from_slice l id method timeout)
  unfolding await receive
  await-Returns l id method timeout none ready number s =
      rw (s.mail, s.entry, await, receive)
        (record {
          result = refl;
          turns = refl;
          number = number;
          entry = get-remove_self ℕ_discrete id l.conn.pending;
          ready = record {
            reading = ready.reading;
            decoder = ready.decoder;
            fresh = λ j later. removed-IsFresh l.conn id ready.fresh j later;
            writes = ready.writes;
          };
        })
  await-Returns l id method timeout (some m) ready number s =
      rw (s.mail, await, s.mail, receive)
        (record { result = refl; turns = refl; number = number; entry = s.entry; ready = ready })

  -- A link on which a turn of whole frames was read.
  abbrev behind : List (List Bytes) → Connection → Link
  behind turns c = record { conn = c; decoder = Codec.new; reading = true; turns = turns }

  turn-IsReady :
      (l : Link) (turns : List (List Bytes)) (cs ps : List Bytes)
      → IsReady l
      → l.turns ≡ cs ∷ turns
      → AreWhole cs ps
      → take_turn to_vec from_slice l l.turns
        ≡ behind turns (dispatch_all to_vec l.conn (values from_slice ps))
  unfolding take_turn read_turn
  turn-IsReady l turns cs ps ready h whole =
      let l' = record l { turns = turns } in
      let read = λ (d : Codec.Decoder).
        after_turn to_vec from_slice l' (read_on to_vec from_slice l.conn d cs) in
      ap (take_turn to_vec from_slice l) h
      ∙ (λ i. if ready.reading i then read l.decoder else l')
      ∙ ap read ready.decoder
      ∙ ap (after_turn to_vec from_slice l')
          (read_new-frames to_vec from_slice l.conn cs ps whole.0 whole.1 whole.2)
      ∙ ap (behind turns) (handle_all-values to_vec from_slice l.conn ps)

  -- On a link that is ready, a request that is given a turn of whole frames, each of less than 2^64
  -- bytes, in chunks that are cut anywhere, is read as an answer to its method from the first of their
  -- messages that comes under its number, or runs out of time where there is none. The link is ready
  -- again, with the turns that are left, one more number drawn, and nothing registered under it.
  pub request-frames :
      (l : Link) (method : Text) (params : Value) (timeout : Duration) (turns : List (List Bytes))
      (cs ps : List Bytes)
      → IsReady l
      → l.turns ≡ cs ∷ turns
      → AreWhole cs ps
      → let id = l.conn.next_id + 1 in
        Returns id turns
          (result_of method timeout (first_answer id (values from_slice ps)))
          (request to_vec from_slice l method params timeout)
  unfolding request after_send
  request-frames l method params timeout turns cs ps ready h whole =
      let (c, id, result) = send_request to_vec l.conn method params in
      let sent = sent-IsFresh to_vec l.conn method params ready.fresh in
      let taken = send-taken to_vec l.conn method params ready.writes in
      let l' = record l { conn = c } in
      let ready' : IsReady l' = record {
        reading = ready.reading;
        decoder = ready.decoder;
        fresh = sent.0;
        writes = taken.0;
      } in
      let waits = ap (λ r. after_send to_vec from_slice l method timeout (c, id, r)) taken.1 in
      let reads =
        ap (λ t. await to_vec from_slice t id method timeout)
          (turn-IsReady l' turns cs ps ready' h whole) in
      let answer = first_answer id (values from_slice ps) in
      let all = dispatch_all-IsFresh to_vec c (values from_slice ps) sent.0 in
      subst (Returns id turns (result_of method timeout answer)) (sym (waits ∙ reads)) (
        await-Returns (behind turns (dispatch_all to_vec c (values from_slice ps))) id method
          timeout answer
          (record {
            reading = refl;
            decoder = refl;
            fresh = all.0;
            writes = dispatch_all-writes to_vec c (values from_slice ps) taken.0;
          })
          (all.1 ∙ sent.1) (dispatch_all-Stands to_vec id c (values from_slice ps) none sent.2))
