-- ===== src/Config.antt =====
-- crates/lspgraph-core/src/config.rs: the server tables. The parser of the crate toml is a parameter.
use lspgraph.Base.{
  ◌⊎◌, inl, inr, ℕ, Bool, Option, none, some, List, [], ◌∷◌, Text, Text-discrete, any, holds,
  if◌then◌else◌,
}
use lspgraph.Base.Str.{is_whitespace}
use lspgraph.Error.{Result, ok, err}
use lspgraph.Error

abbrev pub default_ready_timeout : ℕ
default_ready_timeout = 300

abbrev pub default_concurrency : ℕ
default_concurrency = 1

pub record ServerConfig : Type 0 where
  pub cmd : Text
  pub extensions : List Text
  pub ready_timeout_secs : ℕ
  pub concurrency : ℕ

-- `str::split_whitespace`: the longest stretches without white space. `split_words` has the open
-- stretch in front.
abbrev pub close_word : Text → List Text → List Text
close_word [] words = words
close_word (c ∷ w) words = (c ∷ w) ∷ words

unfoldable pub split_words : Text → Text × List Text
split_words [] = ([], [])
split_words (c ∷ s) =
    let (w, words) = split_words s in
    if is_whitespace c then ([], close_word w words) else (c ∷ w, words)

unfoldable pub split_whitespace : Text → List Text
unfolding split_words
split_whitespace s = let (w, words) = split_words s in close_word w words

abbrev pub program_and_args : List Text → Text × List Text
program_and_args [] = ([], [])
program_and_args (prog ∷ args) = (prog, args)

-- `ServerConfig::command`.
unfoldable pub command : ServerConfig → Text × List Text
unfolding split_whitespace
command cfg = program_and_args (split_whitespace cfg.cmd)

-- `s.extensions.iter().any(|e| e == ext)`.
unfoldable pub serves : Text → ServerConfig → Bool
unfolding any Text-discrete
serves ext s = any (λ e. holds (Text-discrete e ext)) s.extensions

-- The map from language ids, in the order of the keys.
pub record Config : Type 0 where
  pub servers : List (Text × ServerConfig)

-- `Config::from_toml`, over `toml::from_str` and its messages.
unfoldable pub from_toml : (Text → Config ⊎ Text) → Text → Result Config
from_toml from_str text = elim (from_str text) [
  | inl cfg ↦ ok cfg
  | inr why ↦ err (Error.config why)
]

unfoldable pub find_server : Text → List (Text × ServerConfig) → Option (Text × ServerConfig)
unfolding serves
find_server ext [] = none
find_server ext ((lang, s) ∷ servers) =
    if serves ext s then some (lang, s) else find_server ext servers

unfoldable pub for_extension : Config → Text → Option (Text × ServerConfig)
unfolding find_server
for_extension cfg ext = find_server ext cfg.servers
