-- ===== src/Program/Resolved.antt =====
-- Which server tables `resolve_servers_toml` of crates/lspgraph-tui/src/main.rs chooses.
use lspgraph.Base.{arith, All, true, false, Option, none, some, List, [], ◌∷◌, ◌≡◌, ◌⊎◌}
use lspgraph.Engine.{FilePath}
use lspgraph.Program.Servers.{Env, Answer, accept, reject, first_file, resolve_servers_toml}

module _ (env : Env) where
  -- The path is a file, and none before it in the list is.
  abbrev pub IsFirst : FilePath → List FilePath → Type 0
  IsFirst p [] = ⊥
  IsFirst p (q ∷ tried) =
      ((q ≡ p) × (env.is_file q ≡ true)) ⊎ ((env.is_file q ≡ false) × IsFirst p tried)

  -- What is to be chosen among the places, the first that is a file, and when there is nothing.
  abbrev pub Chooses : List FilePath → Answer FilePath → Type 0
  Chooses places (accept p) = IsFirst p places
  Chooses places (reject why) = All (λ p. env.is_file p ≡ false) places

  -- The places, most specific first; the variable leaves no other.
  abbrev pub places : Option FilePath → FilePath → Option FilePath → List FilePath
  places (some p) cwd user = p ∷ []
  places none cwd none = cwd ∷ []
  places none cwd (some p) = cwd ∷ p ∷ []

  -- `resolve_servers_toml` chooses the first place that is a file, and fails only where none is: the
  -- place that the variable names and no other, and without it the working directory before the
  -- user's configuration.
  pub resolve_servers_toml-Chooses :
      (override_ : Option FilePath) (cwd : FilePath) (user : Option FilePath)
      → Chooses (places override_ cwd user) (resolve_servers_toml env override_ cwd user)
  unfolding resolve_servers_toml first_file
  resolve_servers_toml-Chooses (some p) cwd user = ground arith
  resolve_servers_toml-Chooses none cwd none = ground arith
  resolve_servers_toml-Chooses none cwd (some p) = ground arith
