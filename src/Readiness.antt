-- ===== src/Readiness.antt =====
-- crates/lspgraph-core/src/readiness.rs: when a language server is ready. The server, the clock and
-- `collect_named_callables` over the Unicode tables are parameters. The `while` loop of the polling
-- runs on fuel; each round sleeps a second.
pub mod Stride
pub mod Wait
pub mod Polling
pub mod Ends
pub mod Keeps
pub mod Outcome
use lspgraph.Base.{
  map, ℕ, zero, suc, ◌+◌, ◌-◌, ◌*◌, ◌/◌, ◌%◌, ◌^◌, Bool, true, false, Option, none, some, List, [],
  ◌∷◌, ◌++◌, Text, if◌then◌else◌, leb, ltb, is_empty, length, get_elem?, take, ◌==◌, ◌||◌,
}
use lspgraph.Error
use lspgraph.Error.{Error, Result, ok, err, Duration, from_secs}
use lspgraph.Config.{ServerConfig}
use lspgraph.Graph.{CallHierarchyItem, Position}
use lspgraph.Symbols.{NamedCallable, Url}
use lspgraph.Engine.{FilePath}

pub record ReadinessConfig : Type 0 where
  pub max_files : ℕ
  pub per_file : ℕ
  pub timeout : Duration

-- `ReadinessConfig::default`.
abbrev pub default_config : ReadinessConfig
default_config = record { max_files = 40; per_file = 3; timeout = from_secs 300 }

unfoldable pub from_server_config : ServerConfig → ReadinessConfig
from_server_config cfg = record default_config { timeout = from_secs cfg.ready_timeout_secs }

-- Where the sample `i` of `max` is taken, in `usize` arithmetic, of which the product wraps in a
-- release build (a debug build panics where it would wrap).
abbrev pub sample_index : ℕ → ℕ → ℕ → ℕ
sample_index len max i = i * len % 2 ^ 64 / max

-- `items[i * len / max]` for the `n` last of the `max` samples; an index past the end, at which the
-- code would panic, gives none.
unfoldable pub sample_from {ℓ} : {A : Type ℓ} → List A → ℕ → ℕ → List (Option A)
sample_from items max zero = []
sample_from items max (suc n) =
    get_elem? items (sample_index (length items) max (max - suc n)) ∷ sample_from items max n

-- Each sample, or nothing where the index is past the end.
unfoldable pub even_stride {ℓ} : {A : Type ℓ} → List A → ℕ → List (Option A)
unfolding sample_from
even_stride items max =
    if is_empty items || max == 0
    then []
    else if leb (length items) max
    then map some items
    else sample_from items max max

-- The time left before the deadline. Instants are nanoseconds of one clock.
unfoldable pub remaining_budget : Duration → Duration → Option Duration
remaining_budget deadline now = if ltb now deadline then some (deadline - now) else none
