-- ===== src/Server/Linked.antt =====
-- The calls of the language server (crates/lspgraph-core/src/server.rs) over the connection of
-- crates/lspgraph-core/src/transport/mod.rs. `wires` says how the writes to a child end, and what it
-- sends in which turn; a sleep lets the reader read, which counts to the turn behind it.
use mathlib.Core.Path.{ap₂}
use lspgraph.Base.{ℕ, suc, ◌+◌, ◌≤◌, List, ◌∷◌, Bytes, Option, Text, ◌≡◌, refl, ◌∙◌, ap, arith}
use lspgraph.Error.{Result, ok, err, content_modified}
use lspgraph.Json.{Value}
use lspgraph.Transport.{WriteEnd}
use lspgraph.Transport.Answers.{first_answer}
use lspgraph.Transport.Link
use lspgraph.Transport.Link.{Link, tell}
use lspgraph.Transport.Heard.{values}
use lspgraph.Transport.Exchange.{IsReady, AreWhole, result_of, request-frames}
use lspgraph.Transport.Numbers.{request-next_id}
use lspgraph.Server.{Child, ConnOps, Host, LanguageServer, request_timeout}
use lspgraph.Server.Calls.{settled_or_again, retrying, request_retrying_content_modified}
use lspgraph.Server.Retry.{IsModified, Counts, request_retrying-sent, request_retrying-IsModified}

-- A result, or what comes next in the place of modified content.
abbrev pub unless_modified : Result Value → Result Value → Result Value
unless_modified (err (content_modified m)) next = next
unless_modified r next = r

-- What the request of a number gives on the bodies of its turn.
abbrev pub answer_in : (Bytes → Option Value) → Text → ℕ → List Bytes → Result Value
answer_in from_slice method id ps =
    result_of method request_timeout (first_answer id (values from_slice ps))

module _ (to_vec : Value → Bytes) (from_slice : Bytes → Option Value)
    (wires : Child → List WriteEnd × List (List Bytes)) where
  abbrev pub link_ops : ConnOps Link
  link_ops = record {
    connect = λ child. Link.connect (wires child).0 (wires child).1;
    request = Link.request to_vec from_slice;
    notify = tell to_vec from_slice;
    sleep = λ l d. l;
  }

  link_ops-Counts : (host : Host) → Counts link_ops host (λ l. l.conn.next_id)
  link_ops-Counts host =
      (λ l method params t. request-next_id to_vec from_slice l method params t, λ l d. refl)

  module _ (host : Host) where
    -- Whatever the server sends and however its pipe fails: a call of the call hierarchy draws between
    -- one and three numbers for its requests, and three where it ends with the error of modified
    -- content.
    pub request_retrying-numbers :
        (server : LanguageServer Link) (method : Text) (params : Value)
        → let r = request_retrying_content_modified link_ops host server method params in
          (server.conn.conn.next_id + 1 ≤ r.0.conn.conn.next_id)
          × (r.0.conn.conn.next_id ≤ server.conn.conn.next_id + 3)
          × (IsModified r.1 → r.0.conn.conn.next_id ≡ server.conn.conn.next_id + 3)
    request_retrying-numbers server method params =
        let counts = link_ops-Counts host in
        let sent =
          request_retrying-sent link_ops host (λ l. l.conn.next_id) server method params counts in
        (
          sent.0,
          sent.1,
          λ modified.
              request_retrying-IsModified link_ops host (λ l. l.conn.next_id) server method params
                counts modified,
        )

    settled_or_again-unless :
        (l : Link) (r : Result Value) (again : Link × Result Value)
        → (settled_or_again link_ops host l r again).1 ≡ unless_modified r again.1
    unfolding settled_or_again
    settled_or_again-unless l (err (content_modified m)) again = refl
    settled_or_again-unless l (err e) again = refl
    settled_or_again-unless l (ok v) again = refl

    -- One round of the loop.
    retrying-suc :
        (n : ℕ) (l : Link) (method : Text) (params : Value)
        → let r = Link.request to_vec from_slice l method params request_timeout in
          (retrying link_ops host (suc n) l method params).1
          ≡ unless_modified r.1 (retrying link_ops host n r.0 method params).1
    unfolding retrying
    retrying-suc n l method params =
        let r = Link.request to_vec from_slice l method params request_timeout in
        settled_or_again-unless r.0 r.1 (retrying link_ops host n r.0 method params)

    -- The last round.
    retrying-zero :
        (l : Link) (method : Text) (params : Value) (turns : List (List Bytes)) (cs ps : List Bytes)
        (id : ℕ)
        → IsReady l
        → l.turns ≡ cs ∷ turns
        → AreWhole cs ps
        → l.conn.next_id + 1 ≡ id
        → (retrying link_ops host 0 l method params).1 ≡ answer_in from_slice method id ps
    unfolding retrying
    retrying-zero l method params turns cs ps id ready h whole number =
        (request-frames to_vec from_slice l method params request_timeout turns cs ps ready h
          whole).result
        ∙ ap (λ k. answer_in from_slice method k ps) number

    -- A call of the call hierarchy on a link that is ready, whose turns are whole frames however they
    -- are cut, gives the answer that comes under its first number, read by its method, unless that is
    -- the error of modified content; then the answer under the second number, by the same rule, and
    -- at last whatever the third request gives. Where no answer comes in its turn, a request gives the
    -- error of its time.
    pub request_retrying-frames :
        (server : LanguageServer Link) (method : Text) (params : Value)
        (xs ys zs ps qs rs : List Bytes) (turns : List (List Bytes))
        → IsReady server.conn
        → server.conn.turns ≡ xs ∷ ys ∷ zs ∷ turns
        → AreWhole xs ps
        → AreWhole ys qs
        → AreWhole zs rs
        → let n = server.conn.conn.next_id in
          (request_retrying_content_modified link_ops host server method params).1
          ≡ unless_modified (answer_in from_slice method (n + 1) ps) (
              unless_modified
                (answer_in from_slice method (n + 2) qs)
                (answer_in from_slice method (n + 3) rs))
    unfolding request_retrying_content_modified
    request_retrying-frames server method params xs ys zs ps qs rs turns ready h w v u =
        let l = server.conn in
        let n = l.conn.next_id in
        let go = λ (l : Link). Link.request to_vec from_slice l method params request_timeout in
        let first =
          request-frames to_vec from_slice l method params request_timeout (ys ∷ zs ∷ turns) xs ps
            ready h w in
        let next = (go l).0 in
        let second =
          request-frames to_vec from_slice next method params request_timeout (zs ∷ turns) ys qs
            first.ready first.turns v in
        let last = (go next).0 in
        let id : last.conn.next_id + 1 ≡ n + 3 = omega (arith, second.number, first.number) in
        let third =
          retrying-zero last method params turns zs rs (n + 3) second.ready second.turns u id in
        retrying-suc 1 l method params
        ∙ ap₂ unless_modified first.result (
            retrying-suc 0 next method params
            ∙ ap₂ unless_modified
                (second.result
                  ∙ ap (λ k. answer_in from_slice method k qs) (omega (arith, first.number)))
                third)
