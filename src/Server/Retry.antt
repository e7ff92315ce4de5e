-- ===== src/Server/Retry.antt =====
-- How often a call is reissued that the server answers with modified content.
use lspgraph.Base.{ℕ, zero, suc, ◌+◌, ◌≤◌, ◌≡◌, Text, ◌∙◌, arith, subst}
use lspgraph.Error.{Result, ok, err, content_modified, Duration}
use lspgraph.Json.{Value}
use lspgraph.Server.{ConnOps, Host, LanguageServer, request_timeout, retry_delay}
use lspgraph.Server.Calls.{settled_or_again, retrying, request_retrying_content_modified}

-- Whether an answer is the error of modified content.
abbrev pub IsModified : Result Value → Type 0
IsModified (err (content_modified m)) = Unit
IsModified r = ⊥

module _ {S : Type 0} (ops : ConnOps S) (host : Host) (sent : S → ℕ) where
  open ops use {request, sleep}

  -- `sent` counts the requests of the connection.
  abbrev pub Counts : Type 0
  Counts =
      ((s : S) (method : Text) (params : Value) (t : Duration)
        → sent (request s method params t).0 ≡ sent s + 1)
      × ((s : S) (d : Duration) → sent (sleep s d) ≡ sent s)

  -- Between one and `n` requests more than `k`, and all `n` where the answer is modified content.
  abbrev pub InBudget : ℕ → ℕ → S × Result Value → Type 0
  InBudget k n r = (k + 1 ≤ sent r.0) × (sent r.0 ≤ k + n) × (IsModified r.1 → sent r.0 ≡ k + n)

  settled_or_again-InBudget :
      (k n : ℕ) (conn : S) (answer : Result Value) (again : S × Result Value)
      → sent conn ≡ k + 1
      → InBudget (k + 1) (n + 1) again
      → InBudget k (suc n + 1) (settled_or_again ops host conn answer again)
  unfolding settled_or_again
  settled_or_again-InBudget k n conn (err (content_modified m)) again once h =
      (omega (arith, h.0), omega (arith, h.1), λ modified. omega (arith, h.2 modified))
  settled_or_again-InBudget k n conn (err other) again once h =
      (omega arith, omega arith, λ modified. absurd modified)
  settled_or_again-InBudget k n conn (ok v) again once h =
      (omega arith, omega arith, λ modified. absurd modified)

  retrying-InBudget :
      (n : ℕ) (s : S) (method : Text) (params : Value)
      → Counts
      → InBudget (sent s) (n + 1) (retrying ops host n s method params)
  unfolding retrying
  retrying-InBudget zero s method params counts =
      let once = counts.0 s method params request_timeout in
      (omega (arith, once), omega (arith, once), λ modified. omega (arith, once))
  retrying-InBudget (suc n) s method params counts =
      let r = request s method params request_timeout in
      let once = counts.0 s method params request_timeout in
      let slept = sleep r.0 retry_delay in
      let h = retrying-InBudget n slept method params counts in
      settled_or_again-InBudget (sent s) n r.0 r.1 _ once (
        subst (λ k. InBudget k (n + 1) (retrying ops host n slept method params))
          (counts.1 r.0 retry_delay ∙ once) h)

  -- On a connection whose requests are counted, a call of the call hierarchy is sent at least once
  -- and at most three times.
  pub request_retrying-sent :
      (server : LanguageServer S) (method : Text) (params : Value)
      → Counts
      → let r = request_retrying_content_modified ops host server method params in
        (sent server.conn + 1 ≤ sent r.0.conn) × (sent r.0.conn ≤ sent server.conn + 3)
  unfolding request_retrying_content_modified
  request_retrying-sent server method params counts =
      let h = retrying-InBudget 2 server.conn method params counts in (h.0, h.1)

  -- On a connection whose requests are counted, a call of the call hierarchy that ends with the
  -- error of modified content was sent three times.
  pub request_retrying-IsModified :
      (server : LanguageServer S) (method : Text) (params : Value)
      → Counts
      → IsModified (request_retrying_content_modified ops host server method params).1
      → let r = request_retrying_content_modified ops host server method params in
        sent r.0.conn ≡ sent server.conn + 3
  unfolding request_retrying_content_modified
  request_retrying-IsModified server method params counts modified =
      (retrying-InBudget 2 server.conn method params counts).2 modified
