-- ===== src/Readiness/Ends.antt =====
-- `wait_until_ready` ends: a clock that never goes back, and that a sleep puts forward, bounds the
-- rounds.
use lspgraph.Base.{
  ℕ, zero, suc, ◌+◌, ◌≤◌, Option, some, List, [], ◌∷◌, Text, ◌≡◌, arith, inl, inr, Bool-cases, refl,
  is_empty,
}
use lspgraph.Error.{Result, Duration, from_secs}
use lspgraph.Graph.{Position}
use lspgraph.Symbols.{NamedCallable}
use lspgraph.Engine.{FilePath}
use lspgraph.Readiness.{ReadinessConfig, even_stride}
use lspgraph.Readiness.Polling.{poll_cases}
use lspgraph.Readiness.Wait.{
  first, ProbeOps, Gathered, present, or_no_path, examine, gather, poll_round, poll,
  after_gathering, wait_until_ready,
}

module _ {S : Type 0} (ops : ProbeOps S) where
  open ops use {now, sleep, open_file, document_symbols, prepare_call_hierarchy}

  -- The clock: a call takes some time or none, a sleep at least as long as it is told.
  abbrev pub IsClock : Type 0
  IsClock =
      ((s : S) (d : Duration) → now s + d ≤ now (sleep s d))
      × ((s : S) (path : FilePath) (language_id : Text)
          → now s ≤ now (open_file s path language_id).0)
      × ((s : S) (path : FilePath) → now s ≤ now (document_symbols s path).0)
      × ((s : S) (path : FilePath) (pos : Position)
          → now s ≤ now (prepare_call_hierarchy s path pos).0)

  module _ (cfg : ReadinessConfig) (deadline : Duration) (clock : IsClock) where
    examine-now :
        (language_id : Text) (path : FilePath) (g : Gathered S)
        → now g.server ≤ now (examine ops cfg deadline language_id path g).server
    unfolding examine
    examine-now language_id path g =
        let opening = open_file g.server path language_id in
        let reading = document_symbols opening.0 path in
        ground (arith, clock.1 g.server path language_id, clock.2 opening.0 path)

    gather-now :
        (language_id : Text) (paths : List FilePath) (g : Gathered S)
        → now g.server ≤ now (gather ops cfg deadline language_id paths g).server
    unfolding gather
    gather-now language_id [] g = omega arith
    gather-now language_id (path ∷ paths) g =
        let next = examine ops cfg deadline language_id path g in
        ground (arith, examine-now language_id path g, gather-now language_id paths next)

    poll_round-now :
        (cs : List NamedCallable) (s : S) → now s ≤ now (poll_round ops cfg deadline cs s).0
    unfolding poll_round
    poll_round-now [] s = omega arith
    poll_round-now (c ∷ cs) s =
        let path = or_no_path (ops.to_file_path c.uri) in
        let asked = prepare_call_hierarchy s path c.position in
        ground (arith, clock.3 s path c.position, poll_round-now cs asked.0)

    abbrev IsSome : Option (S × Result {0} Unit) → Type 0
    IsSome o = (r : S × Result {0} Unit) × (o ≡ some r)

    poll-ends :
        (n : ℕ) (cs : List NamedCallable) (s : S)
        → deadline ≤ now s + from_secs n
        → (r : S × Result {0} Unit) × (poll ops cfg deadline (suc n) cs s ≡ some r)
    poll-ends zero cs s h =
        poll_cases ops cfg deadline IsSome zero cs s (λ over. (_, refl)) (λ left ready. (_, refl))
          (λ left silent. absurd (omega arith))
    poll-ends (suc n) cs s h =
        let (server, _) = poll_round ops cfg deadline cs s in
        let slept = sleep server (from_secs 1) in
        poll_cases ops cfg deadline IsSome (suc n) cs s (λ over. (_, refl))
          (λ left ready. (_, refl))
          (λ left silent.
            poll-ends n cs slept (omega (arith, poll_round-now cs s, clock.0 server (from_secs 1))))

  -- On a clock that never goes back and that a sleep puts forward by its length, `wait_until_ready`
  -- ends: it gives a result on fuel for one round more than the timeout has seconds.
  pub wait_until_ready-ends :
      (s : S) (files : List FilePath) (language_id : Text) (cfg : ReadinessConfig) (secs : ℕ)
      → IsClock
      → cfg.timeout ≤ from_secs secs
      → (r : S × Result {0} Unit) × (wait_until_ready ops (suc secs) s files language_id cfg
          ≡ some r)
  unfolding wait_until_ready after_gathering
  wait_until_ready-ends s files language_id cfg secs clock h =
      let deadline = now s + cfg.timeout in
      let g =
        gather ops cfg deadline language_id (present (even_stride files cfg.max_files)) (first s) in
      elim (Bool-cases (is_empty g.candidates)) [
        | inl nothing ↦ rw nothing (_, refl)
        | inr some_ ↦ rw some_ (
            poll-ends cfg deadline clock secs g.candidates g.server (
              omega (
                arith,
                gather-now cfg deadline clock language_id
                    (present (even_stride files cfg.max_files)) (first s),
              )))
      ]
