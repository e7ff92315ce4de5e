-- ===== src/Cache.antt =====
-- crates/lspgraph-core/src/cache.rs: the cache between sessions. The disk is a map from paths to
-- bytes that a run reads and writes; the hash, the JSON codec and the paths' conversions are those of
-- other crates, and so parameters.
pub mod Saved
use lspgraph.Base.{
  ℕ, Bool, true, false, Option, none, some, List, [], ◌∷◌, map, Text, Text-discrete, Bytes, codes,
  ◌++◌, ◌==◌, take, not, holds, retain, if◌then◌else◌,
}
use lspgraph.Base.Map.{get, insert}
use lspgraph.Error.{Error, Result, ok, err}
use lspgraph.Graph.{CallGraph}
use lspgraph.Engine.{FilePath}

abbrev pub schema_version : ℕ
schema_version = 1

pub record CacheFile : Type 0 where
  pub schema : ℕ
  pub file_hashes : List (Text × Text)
  pub graph : CallGraph

-- `CacheFile::new`.
abbrev pub new : CallGraph → CacheFile
new graph = record { schema = schema_version; file_hashes = []; graph = graph }

-- How making the directory and writing a file end: all is written; nothing is, as the directory cannot
-- be made or the file not be opened; or the file is cut off behind some bytes.
pub data SaveEnd : Type 0 where
  written : SaveEnd
  refused : Text → SaveEnd
  cut_off : ℕ → Text → SaveEnd

-- The files that can be read, and how the write of a run ends.
pub record Disk : Type 0 where
  pub files : List (FilePath × Bytes)
  pub write_end : SaveEnd

-- The crates `sha2`, `serde_json`, `dirs` and `url`: the hash of bytes in hexadecimal digits, the
-- JSON text of a cache and its reading, the platform's cache directory, the bytes of a text, the
-- joining of paths and the URI of a path.
pub record Crates : Type 0 where
  pub sha256 : Bytes → Text
  pub to_vec : CacheFile → Bytes
  pub from_slice : Bytes → Option CacheFile
  pub cache_dir : FilePath
  pub as_bytes : Text → Bytes
  pub join : FilePath → Text → FilePath
  pub path_to_uri : FilePath → Text

module _ (crates : Crates) where
  open crates use {sha256, to_vec, from_slice, cache_dir, as_bytes, join, path_to_uri}

  unfoldable pub hash_str : Text → Text
  hash_str s = sha256 (as_bytes s)

  -- A path of the model is its text.
  unfoldable pub cache_dir_for : FilePath → FilePath
  unfolding hash_str
  cache_dir_for repo = join (join cache_dir (codes "lspgraph")) (take 16 (hash_str repo))

  unfoldable pub cache_path : FilePath → FilePath
  unfolding cache_dir_for
  cache_path repo = join (cache_dir_for repo) (codes "graph.json")

  -- `std::fs::read`.
  unfoldable pub read_file : Disk → FilePath → Option Bytes
  unfolding get Text-discrete
  read_file disk path = get Text-discrete path disk.files

  unfoldable pub hash_file : Disk → FilePath → Option Text
  unfolding read_file
  hash_file disk path = elim (read_file disk path) [
    | none ↦ none
    | some bytes ↦ some (sha256 bytes)
  ]

  -- A cache of another schema is discarded.
  abbrev pub current : Option CacheFile → Option CacheFile
  current none = none
  current (some cache) = if cache.schema == schema_version then some cache else none

  unfoldable pub load : Disk → FilePath → Option CacheFile
  unfolding cache_path read_file
  load disk repo = elim (read_file disk (cache_path repo)) [
    | none ↦ none
    | some bytes ↦ current (from_slice bytes)
  ]

  -- `create_dir_all` and `write`, of which the first that fails ends the run.
  unfoldable pub save : Disk → FilePath → CacheFile → Disk × Result {0} Unit
  unfolding cache_path insert
  save disk repo cache =
      let holding : Bytes → Disk =
        λ bytes. record disk { files = insert Text-discrete (cache_path repo) bytes disk.files } in
      elim disk.write_end [
        | written ↦ (holding (to_vec cache), ok tt)
        | refused e ↦ (disk, err (Error.io e))
        | cut_off n e ↦ (holding (take n (to_vec cache)), err (Error.io e))
      ]

  -- Unreadable or deleted counts as stale.
  abbrev pub differs : Option Text → Text → Bool
  differs none cached = true
  differs (some current) cached = not (holds (Text-discrete current cached))

  unfoldable pub is_stale : Disk → Text × Text → Bool
  unfolding hash_file Text-discrete
  is_stale disk (path, cached) = differs (hash_file disk path) cached

  unfoldable pub stale_files : Disk → CacheFile → List Text
  unfolding is_stale retain
  stale_files disk cache = map (λ e. path_to_uri e.0) (retain (is_stale disk) cache.file_hashes)
