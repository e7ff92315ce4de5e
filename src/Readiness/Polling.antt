-- ===== src/Readiness/Polling.antt =====
-- The ways in which a round of the polling ends.
use lspgraph.Base.{
  ℕ, suc, ◌≤◌, ◌<◌, true, false, Option, some, List, ◌≡◌, arith, inl, inr, Bool-cases, ltb, length,
}
use lspgraph.Error
use lspgraph.Error.{Result, ok, err, Duration, from_secs}
use lspgraph.Symbols.{NamedCallable}
use lspgraph.Readiness.{ReadinessConfig, remaining_budget}
use lspgraph.Readiness.Wait.{ProbeOps, poll_round, poll}

module _ {S : Type 0} (ops : ProbeOps S) (cfg : ReadinessConfig) (deadline : Duration) where
  open ops use {now, sleep, prepare_call_hierarchy, to_file_path}

  pub poll_cases {ℓ} :
      (P : Option (S × Result {0} Unit) → Type ℓ) (fuel : ℕ) (cs : List NamedCallable) (s : S)
      → (deadline ≤ now s → P (some (s, err (Error.not_ready cfg.timeout (length cs)))))
      → (now s < deadline
          → (poll_round ops cfg deadline cs s).1 ≡ true
          → P (some ((poll_round ops cfg deadline cs s).0, ok tt)))
      → (now s < deadline
          → (poll_round ops cfg deadline cs s).1 ≡ false
          → P (
              poll ops cfg deadline fuel cs
                (sleep (poll_round ops cfg deadline cs s).0 (from_secs 1))))
      → P (poll ops cfg deadline (suc fuel) cs s)
  unfolding poll remaining_budget
  poll_cases P fuel cs s over ready silent = elim (Bool-cases (ltb (now s) deadline)) [
    | inl left ↦ elim (Bool-cases (poll_round ops cfg deadline cs s).1) [
      | inl t ↦ rw (poll, left, t) (ready (ground arith) t)
      | inr f ↦ rw (poll, left, f) (silent (ground arith) f)
    ]
    | inr none_left ↦ rw (poll, none_left) (over (ground arith))
  ]
