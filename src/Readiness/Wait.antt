-- ===== src/Readiness/Wait.antt =====
-- `wait_until_ready` of crates/lspgraph-core/src/readiness.rs, over what it asks of the server and of
-- the clock. The rounds of the polling run on fuel.
use lspgraph.Base.{
  ℕ, zero, suc, ◌+◌, Bool, true, false, Option, none, some, List, [], ◌∷◌, ◌++◌, Text, is_empty,
  length, take, not, if◌then◌else◌,
}
use lspgraph.Error
use lspgraph.Error.{Result, ok, err, Duration, from_secs}
use lspgraph.Graph.{CallHierarchyItem, Position}
use lspgraph.Symbols.{NamedCallable, Url, CharTables, Children, collect_named_callables}
use lspgraph.Engine.{FilePath}
use lspgraph.Readiness.{ReadinessConfig, even_stride, remaining_budget}

-- The server and the clock, as one state; `now` reads the clock.
pub record ProbeOps (S : Type 0) : Type 0 where
  pub now : S → Duration
  pub sleep : S → Duration → S
  pub open_file : S → FilePath → Text → S × Result {0} Unit
  pub document_symbols : S → FilePath → S × Result Children
  pub prepare_call_hierarchy : S → FilePath → Position → S × Result (List CallHierarchyItem)
  pub path_to_uri : FilePath → Url
  pub to_file_path : Url → Option FilePath
  pub tables : CharTables

-- The variables of the gathering, and the server.
pub record Gathered (S : Type 0) : Type 0 where
  pub server : S
  pub candidates : List NamedCallable
  pub files_attempted : ℕ
  pub files_failed : ℕ

-- The variables before the gathering.
abbrev pub first : {S : Type 0} → S → Gathered S
first server = record { server = server; candidates = []; files_attempted = 0; files_failed = 0 }

-- The samples; `even_stride` takes each within the files.
abbrev pub present {ℓ} : {A : Type ℓ} → List (Option A) → List A
present [] = []
present (none ∷ xs) = present xs
present (some x ∷ xs) = x ∷ present xs

-- Whether a server answered with at least one item.
abbrev pub has_items {ℓ} : {A : Type ℓ} → Result (List A) → Bool
has_items (ok items) = not (is_empty items)
has_items (err e) = false

-- `unwrap_or_default` on a path.
abbrev pub or_no_path : Option FilePath → FilePath
or_no_path none = []
or_no_path (some path) = path

module _ {S : Type 0} (ops : ProbeOps S) (cfg : ReadinessConfig) (deadline : Duration) where
  open ops use {
    now, sleep, open_file, document_symbols, prepare_call_hierarchy, path_to_uri, to_file_path,
    tables,
  }

  -- The body of the loop over the sampled files, behind the check of the budget.
  unfoldable pub examine : Text → FilePath → Gathered S → Gathered S
  unfolding collect_named_callables
  examine language_id path g =
      let (opening, opened) = open_file g.server path language_id in
      let (reading, answer) = document_symbols opening path in
      elim opened [
        | err e ↦ record g {
          server = opening;
          files_attempted = g.files_attempted + 1;
          files_failed = g.files_failed + 1;
        }
        | ok _ ↦ elim answer [
          | err e ↦ record g {
            server = reading;
            files_attempted = g.files_attempted + 1;
            files_failed = g.files_failed + 1;
          }
          | ok syms ↦ record g {
            server = reading;
            candidates =
                g.candidates
                ++ take cfg.per_file (collect_named_callables tables syms (path_to_uri path) []);
            files_attempted = g.files_attempted + 1;
          }
        ]
      ]

  unfoldable pub gather : Text → List FilePath → Gathered S → Gathered S
  unfolding examine remaining_budget
  gather language_id [] g = g
  gather language_id (path ∷ paths) g = elim (remaining_budget deadline (now g.server)) [
    | none ↦ g
    | some left ↦ gather language_id paths (examine language_id path g)
  ]

  -- A round over the candidates: whether one has answered.
  unfoldable pub poll_round : List NamedCallable → S → S × Bool
  unfolding remaining_budget
  poll_round [] server = (server, false)
  poll_round (c ∷ cs) server = elim (remaining_budget deadline (now server)) [
    | none ↦ (server, false)
    | some left ↦
        let (server', items) =
          prepare_call_hierarchy server (or_no_path (to_file_path c.uri)) c.position in
        elim (has_items items) [ true ↦ (server', true) | false ↦ poll_round cs server' ]
  ]

  -- The rounds; out of fuel they give nothing.
  unfoldable pub poll : ℕ → List NamedCallable → S → Option (S × Result {0} Unit)
  unfolding poll_round remaining_budget
  poll zero candidates server = none
  poll (suc fuel) candidates server = elim (remaining_budget deadline (now server)) [
    | none ↦ some (server, err (Error.not_ready cfg.timeout (length candidates)))
    | some left ↦
        let (server', answered) = poll_round candidates server in
        elim answered [
          | true ↦ some (server', ok tt)
          | false ↦ poll fuel candidates (sleep server' (from_secs 1))
        ]
  ]

  -- What follows the gathering.
  unfoldable pub after_gathering : ℕ → Gathered S → Option (S × Result {0} Unit)
  unfolding poll
  after_gathering fuel g =
      if is_empty g.candidates
      then some (g.server, err (Error.no_candidates g.files_attempted g.files_failed))
      else poll fuel g.candidates g.server

module _ {S : Type 0} (ops : ProbeOps S) where
  unfoldable pub wait_until_ready :
      ℕ → S → List FilePath → Text → ReadinessConfig → Option (S × Result {0} Unit)
  unfolding after_gathering gather
  wait_until_ready fuel server files language_id cfg =
      let deadline = ops.now server + cfg.timeout in
      after_gathering ops cfg deadline fuel (
        gather ops cfg deadline language_id (present (even_stride files cfg.max_files))
          (record { server = server; candidates = []; files_attempted = 0; files_failed = 0 }))
