-- ===== src/Readiness/Outcome.antt =====
-- What the results of `wait_until_ready` mean.
use native.Mathlib.Nat.{mul-le-mul_right}
use lspgraph.Graph.{CallHierarchyItem}
use lspgraph.Base.{
  ◌≢◌, Any, ℕ, zero, suc, ◌+◌, ◌*◌, ◌≤◌, ◌<◌, true, Option, none, some, List, [], ◌∷◌, Text, ◌≡◌,
  arith, inl, inr, Bool-cases, refl, ltb, is_empty, length, take, length-append, length-take, sym,
  subst,
}
use lspgraph.Error.{Result-cases, Error, Result, ok, err, Duration}
use lspgraph.Symbols.{NamedCallable, collect_named_callables}
use lspgraph.Engine.{FilePath}
use lspgraph.Readiness.{ReadinessConfig, even_stride, remaining_budget}
use lspgraph.Readiness.Stride.{even_stride-total}
use lspgraph.Readiness.Wait.{
  ProbeOps, Gathered, first, present, has_items, or_no_path, examine, gather, poll_round, poll,
  after_gathering, wait_until_ready,
}
use lspgraph.Readiness.Polling.{poll_cases}

-- The answer has at least one item.
abbrev pub IsAnswer : Result (List CallHierarchyItem) → Type 0
IsAnswer (ok items) = items ≢ []
IsAnswer (err e) = ⊥

has_items-IsAnswer : (r : Result (List CallHierarchyItem)) → has_items r ≡ true → IsAnswer r
has_items-IsAnswer (ok []) h = absurd cc
has_items-IsAnswer (ok (i ∷ is)) h = λ p. cc
has_items-IsAnswer (err e) h = absurd cc

module _ {S : Type 0} (ops : ProbeOps S) where
  open ops use {now, prepare_call_hierarchy, to_file_path}

  -- The server answered one of the symbols with items, asked before the deadline, and that was the
  -- last call.
  abbrev pub HasAnswered : Duration → List NamedCallable → S → Type 0
  HasAnswered deadline cs t =
      (s : S) × (c : NamedCallable) × Any (λ d. d ≡ c) cs
      × (now s < deadline)
      × let asked = prepare_call_hierarchy s (or_no_path (to_file_path c.uri)) c.position in
        (asked.0 ≡ t) × IsAnswer asked.1

  -- The candidates that the sampled files give.
  abbrev pub candidates_of : S → List FilePath → Text → ReadinessConfig → List NamedCallable
  candidates_of s files language_id cfg =
      let paths = present (even_stride files cfg.max_files) in
      (gather ops cfg (now s + cfg.timeout) language_id paths (first s)).candidates

  -- What a result says of the candidates: one was answered; there are none, in as many files as were
  -- attempted, at most `max_files`; or the deadline has passed, with at most `max_files * per_file`
  -- candidates.
  abbrev pub Explains :
      ReadinessConfig → Duration → List NamedCallable → S × Result {0} Unit → Type 0
  Explains cfg deadline cs (t, ok _) = HasAnswered deadline cs t
  Explains cfg deadline cs (t, err (Error.no_candidates attempted failed_)) =
      (cs ≡ []) × (failed_ ≤ attempted) × (attempted ≤ cfg.max_files)
  Explains cfg deadline cs (t, err (Error.not_ready timeout tried)) =
      (timeout ≡ cfg.timeout)
      × (deadline ≤ now t)
      × (tried ≡ length cs)
      × (1 ≤ tried)
      × (tried ≤ cfg.max_files * cfg.per_file)
  Explains cfg deadline cs (t, err e) = ⊥

  module _ (cfg : ReadinessConfig) (deadline : Duration) where
    poll_round-HasAnswered :
        (cs : List NamedCallable) (s : S)
        → (poll_round ops cfg deadline cs s).1 ≡ true
        → HasAnswered deadline cs (poll_round ops cfg deadline cs s).0
    unfolding poll_round remaining_budget
    poll_round-HasAnswered [] s = λ h. cc
    poll_round-HasAnswered (c ∷ cs) s =
        let (server, items) =
          prepare_call_hierarchy s (or_no_path (to_file_path c.uri)) c.position in
        elim (Bool-cases (ltb (now s) deadline)) [
          | inl left ↦ elim (Bool-cases (has_items items)) [
            | inl t ↦
                rw (poll_round, left, t)
                  (λ _. (s, c, inl refl, ground arith, (refl, has_items-IsAnswer items t)))
            | inr f ↦
                rw (poll_round, left, f)
                  (λ h.
                    let (s', d, among, left', answered) = poll_round-HasAnswered cs server h in
                    (s', d, inr among, left', answered))
          ]
          | inr over ↦ rw (poll_round, over) (λ h. cc)
        ]

    -- What a result says, if there is one.
    abbrev Says : List NamedCallable → Option (S × Result {0} Unit) → Type 0
    Says cs none = Unit
    Says cs (some r) = Explains cfg deadline cs r

    poll-Says :
        (fuel : ℕ) (cs : List NamedCallable) (s : S)
        → 1 ≤ length cs
        → length cs ≤ cfg.max_files * cfg.per_file
        → Says cs (poll ops cfg deadline fuel cs s)
    unfolding poll
    poll-Says zero cs s some_ few = tt
    poll-Says (suc fuel) cs s some_ few =
        poll_cases ops cfg deadline (Says cs) fuel cs s (λ over. (refl, over, refl, some_, few))
          (λ left ready. poll_round-HasAnswered cs s ready)
          (λ left silent. poll-Says fuel cs _ some_ few)

    -- The counts of the gathering.
    abbrev Counted : ℕ → Gathered S → Type 0
    Counted n g =
        (g.files_failed ≤ g.files_attempted)
        × (g.files_attempted ≤ n)
        × (length g.candidates ≤ g.files_attempted * cfg.per_file)

    one_more : (a p k l : ℕ) → l ≤ a * p → k ≤ p → l + k ≤ (a + 1) * p
    one_more a p k l h h' = omega arith

    examine-Counted :
        (language_id : Text) (path : FilePath) (n : ℕ) (g : Gathered S)
        → Counted n g
        → Counted (suc n) (examine ops cfg deadline language_id path g)
    unfolding examine
    examine-Counted language_id path n g v =
        let (opening, opened) = ops.open_file g.server path language_id in
        let (reading, answer) = ops.document_symbols opening path in
        elim (Result-cases opened) [
          | inl (e, p) ↦
              rw (examine, p) (omega (arith, v.0), omega (arith, v.1), omega (arith, v.2))
          | inr (_, p) ↦ elim (Result-cases answer) [
            | inl (e, q) ↦
                rw (examine, p, q) (omega (arith, v.0), omega (arith, v.1), omega (arith, v.2))
            | inr (syms, q) ↦
                let found = collect_named_callables ops.tables syms (ops.path_to_uri path) [] in
                let kept = take cfg.per_file found in
                rw (examine, p, q)
                  (
                    omega (arith, v.0),
                    omega (arith, v.1),
                    subst (λ m. m ≤ (g.files_attempted + 1) * cfg.per_file)
                        (sym (length-append g.candidates kept))
                        (one_more g.files_attempted cfg.per_file (length kept) (length g.candidates)
                          v.2 (omega (arith, length-take cfg.per_file found))),
                  )
          ]
        ]

    gather-Counted :
        (language_id : Text) (paths : List FilePath) (n : ℕ) (g : Gathered S)
        → Counted n g
        → Counted (n + length paths) (gather ops cfg deadline language_id paths g)
    unfolding gather
    gather-Counted language_id [] n g v = ground (arith)
    gather-Counted language_id (path ∷ paths) n g v =
        let next = examine ops cfg deadline language_id path g in
        ground (
          arith,
          gather-Counted language_id paths (suc n) next (examine-Counted language_id path n g v),
        )

    length-present : {A : Type 0} (xs : List (Option A)) → length (present xs) ≤ length xs
    length-present [] = omega arith
    length-present (none ∷ xs) = omega (arith, length-present xs)
    length-present (some x ∷ xs) = omega (arith, length-present xs)

    after_gathering-Says :
        (fuel : ℕ) (g : Gathered S)
        → Counted cfg.max_files g
        → Says g.candidates (after_gathering ops cfg deadline fuel g)
    unfolding after_gathering
    after_gathering-Says fuel g v = elim (Bool-cases (is_empty g.candidates)) [
      | inl nothing ↦ rw (after_gathering, nothing) (ground arith, v.0, v.1)
      | inr more ↦
          rw (after_gathering, more)
            (poll-Says fuel g.candidates g.server (ground arith)
              (omega (arith, v.2, mul-le-mul_right cfg.per_file v.1)))
    ]

  -- What a result of `wait_until_ready` says, if there is one. Success means that the server answered
  -- with items for a candidate of the sampled files, in a call made before the deadline, and that
  -- nothing was asked of it since. The error of no candidates means that there are none; it counts at
  -- most `max_files` files, and no more failures than files. The error of a server that is not ready
  -- comes when the deadline has passed, and counts the candidates, between one and
  -- `max_files * per_file`. There are no other errors.
  pub wait_until_ready-Explains :
      (fuel : ℕ) (s : S) (files : List FilePath) (language_id : Text) (cfg : ReadinessConfig)
      (r : S × Result {0} Unit)
      → wait_until_ready ops fuel s files language_id cfg ≡ some r
      → Explains cfg (now s + cfg.timeout) (candidates_of s files language_id cfg) r
  unfolding wait_until_ready
  wait_until_ready-Explains fuel s files language_id cfg r h =
      let deadline = now s + cfg.timeout in
      let paths = present (even_stride files cfg.max_files) in
      let (failures, files_counted, found) =
        gather-Counted cfg deadline language_id paths 0 (first s)
          (omega arith, omega arith, omega arith) in
      let few : length paths ≤ cfg.max_files = omega (
        arith,
        length-present cfg deadline (even_stride files cfg.max_files),
        (even_stride-total files cfg.max_files).0,
      ) in
      subst (Says cfg deadline _) h (
        after_gathering-Says cfg deadline fuel _
          (failures, omega (arith, files_counted, few), found))
