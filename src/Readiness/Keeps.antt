-- ===== src/Readiness/Keeps.antt =====
-- What the calls of the server keep, `wait_until_ready` keeps.
use lspgraph.Base.{
  ◌+◌, ℕ, zero, suc, Option, none, some, List, [], ◌∷◌, Text, inl, inr, Bool-cases, is_empty, arith,
}
use lspgraph.Error.{Result, Duration}
use lspgraph.Graph.{Position}
use lspgraph.Symbols.{NamedCallable}
use lspgraph.Engine.{FilePath}
use lspgraph.Readiness.{ReadinessConfig, even_stride}
use lspgraph.Readiness.Wait.{
  ProbeOps, Gathered, present, first, or_no_path, examine, gather, poll_round, poll,
  after_gathering, wait_until_ready,
}
use lspgraph.Readiness.Polling.{poll_cases}

module _ {S : Type 0} (ops : ProbeOps S) (Keeps : S → Type 0) where
  open ops use {sleep, open_file, document_symbols, prepare_call_hierarchy}

  -- Every call of the server and the clock keeps the property.
  abbrev pub AllKeep : Type 0
  AllKeep =
      ((s : S) (d : Duration) → Keeps s → Keeps (sleep s d))
      × ((s : S) (path : FilePath) (language_id : Text)
          → Keeps s
          → Keeps (open_file s path language_id).0)
      × ((s : S) (path : FilePath) → Keeps s → Keeps (document_symbols s path).0)
      × ((s : S) (path : FilePath) (pos : Position)
          → Keeps s
          → Keeps (prepare_call_hierarchy s path pos).0)

  -- The state of a result, if there is one.
  abbrev pub KeepsIn : Option (S × Result {0} Unit) → Type 0
  KeepsIn none = Unit
  KeepsIn (some r) = Keeps r.0

  module _ (cfg : ReadinessConfig) (deadline : Duration) (keep : AllKeep) where
    examine-Keeps :
        (language_id : Text) (path : FilePath) (g : Gathered S)
        → Keeps g.server
        → Keeps (examine ops cfg deadline language_id path g).server
    unfolding examine
    examine-Keeps language_id path g h =
        let opening = open_file g.server path language_id in
        let h1 = keep.1 g.server path language_id h in ground (arith, h1, keep.2 opening.0 path h1)

    gather-Keeps :
        (language_id : Text) (paths : List FilePath) (g : Gathered S)
        → Keeps g.server
        → Keeps (gather ops cfg deadline language_id paths g).server
    unfolding gather
    gather-Keeps language_id [] g h = h
    gather-Keeps language_id (path ∷ paths) g h =
        let next = examine ops cfg deadline language_id path g in
        ground (arith, gather-Keeps language_id paths next (examine-Keeps language_id path g h))

    poll_round-Keeps :
        (cs : List NamedCallable) (s : S) → Keeps s → Keeps (poll_round ops cfg deadline cs s).0
    unfolding poll_round
    poll_round-Keeps [] s h = h
    poll_round-Keeps (c ∷ cs) s h =
        let path = or_no_path (ops.to_file_path c.uri) in
        let asked = prepare_call_hierarchy s path c.position in
        let h1 = keep.3 s path c.position h in ground (arith, h1, poll_round-Keeps cs asked.0 h1)

    poll-Keeps :
        (fuel : ℕ) (cs : List NamedCallable) (s : S)
        → Keeps s
        → KeepsIn (poll ops cfg deadline fuel cs s)
    unfolding poll
    poll-Keeps zero cs s h = tt
    poll-Keeps (suc fuel) cs s h =
        let h1 = poll_round-Keeps cs s h in
        poll_cases ops cfg deadline KeepsIn fuel cs s (λ over. h) (λ left ready. h1)
          (λ left silent. poll-Keeps fuel cs _ (keep.0 _ _ h1))

  pub wait_until_ready-Keeps :
      (fuel : ℕ) (s : S) (files : List FilePath) (language_id : Text) (cfg : ReadinessConfig)
      → AllKeep
      → Keeps s
      → KeepsIn (wait_until_ready ops fuel s files language_id cfg)
  unfolding wait_until_ready after_gathering
  wait_until_ready-Keeps fuel s files language_id cfg keep h =
      let deadline = ops.now s + cfg.timeout in
      let paths = present (even_stride files cfg.max_files) in
      let g = gather ops cfg deadline language_id paths (first s) in
      let h1 = gather-Keeps cfg deadline keep language_id paths (first s) h in
      elim (Bool-cases (is_empty g.candidates)) [
        | inl nothing ↦ rw nothing h1
        | inr more ↦ rw more (poll-Keeps cfg deadline keep fuel g.candidates g.server h1)
      ]
