-- ===== src/Program/Servers.antt =====
-- crates/lspgraph-tui/src/main.rs: where the server tables are found. The environment, the file
-- system and the operations of `PathBuf` are parameters.
use lspgraph.Base.{Bool, Option, none, some, List, [], ◌∷◌, ◌++◌, Text, codes, map, if◌then◌else◌}
use lspgraph.Engine.{FilePath}

-- A `Result` whose error is the text that is shown.
pub data Answer {ℓ} (A : Type ℓ) : Type ℓ where
  accept : A → Answer A
  reject : Text → Answer A

pub record Env : Type 0 where
  pub windows : Bool
  pub var_os : Text → Option Text
  pub current_dir : Option FilePath
  pub join : FilePath → Text → FilePath
  pub is_file : FilePath → Bool
  pub display : FilePath → Text

-- `Option::or_else` and `Option::map`, on what a variable says.
abbrev pub or_var : Option FilePath → Option FilePath → Option FilePath
or_var none b = b
or_var (some p) b = some p

abbrev pub map_path : (FilePath → FilePath) → Option FilePath → Option FilePath
map_path f none = none
map_path f (some p) = some (f p)

-- `<[String]>::join`.
unfoldable pub join_with : Text → List Text → Text
join_with sep [] = []
join_with sep (t ∷ []) = t
join_with sep (t ∷ u ∷ ts) = t ++ (sep ++ join_with sep (u ∷ ts))

module _ (env : Env) where
  open env use {windows, var_os, current_dir, join, is_file, display}

  unfoldable pub config_path_in : FilePath → FilePath
  config_path_in base = join (join base (codes "lspgraph")) (codes "servers.toml")

  unfoldable pub user_config_path : Option FilePath
  unfolding config_path_in
  user_config_path =
      let base =
        if windows
        then var_os (codes "APPDATA")
        else or_var (var_os (codes "XDG_CONFIG_HOME"))
            (map_path (λ h. join h (codes ".config")) (var_os (codes "HOME"))) in
      map_path config_path_in base

  -- The first of the paths that is a file.
  unfoldable pub first_file : List FilePath → Option FilePath
  first_file [] = none
  first_file (p ∷ tried) = let rest = first_file tried in if is_file p then some p else rest

  abbrev pub not_a_file_text : FilePath → Text
  not_a_file_text p =
      codes "LSPGRAPH_SERVERS_TOML points at "
      ++ (display p ++ codes ", which is not a readable file")

  abbrev pub none_found_text : List FilePath → Text
  none_found_text tried =
      let looked = map (λ p. codes "  " ++ display p) tried in
      codes "no servers.toml found. Looked in:\n"
      ++ (join_with (codes "\n") looked
          ++ codes
              "\n\nCreate one of those, or set LSPGRAPH_SERVERS_TOML. A minimal file looks like:\n\n  [python]\n  cmd = \"basedpyright-langserver --stdio\"\n  extensions = [\"py\"]")

  -- `vec![cwd]`, extended with the user's path.
  abbrev pub tried_paths : FilePath → Option FilePath → List FilePath
  tried_paths cwd none = cwd ∷ []
  tried_paths cwd (some user) = cwd ∷ user ∷ []

  unfoldable pub resolve_servers_toml :
      Option FilePath → FilePath → Option FilePath → Answer FilePath
  unfolding first_file join_with
  resolve_servers_toml (some p) cwd user =
      if is_file p then Answer.accept p else Answer.reject (not_a_file_text p)
  resolve_servers_toml none cwd user =
      let tried = tried_paths cwd user in
      elim (first_file tried) [
        | some p ↦ Answer.accept p
        | none ↦ Answer.reject (none_found_text tried)
      ]

  abbrev pub cwd_path : Option FilePath → FilePath
  cwd_path none = codes "servers.toml"
  cwd_path (some d) = join d (codes "servers.toml")

  unfoldable pub find_servers_toml : Answer FilePath
  unfolding resolve_servers_toml user_config_path
  find_servers_toml =
      resolve_servers_toml (var_os (codes "LSPGRAPH_SERVERS_TOML")) (cwd_path current_dir)
        user_config_path
