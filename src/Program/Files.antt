-- ===== src/Program/Files.antt =====
-- crates/lspgraph-tui/src/main.rs: `source_files`. The file system, the parts of a path and the
-- sorting are parameters; the `while` loop runs on fuel.
use mathlib.Core.Option
use lspgraph.Base.{
  ℕ, zero, suc, Bool, false, not, Option, none, some, List, [], ◌∷◌, ◌++◌, Text, codes,
  Text-discrete, holds, any, if◌then◌else◌,
}
use lspgraph.Engine.{FilePath}

-- What the code asks of the file system and of `Path`. `read_dir` gives the entries that are there
-- (`flatten` drops the others), and nothing for a directory that cannot be read.
pub record Fs : Type 0 where
  pub read_dir : FilePath → Option (List FilePath)
  pub is_dir : FilePath → Bool
  pub is_file : FilePath → Bool
  pub file_name : FilePath → Option Text
  pub extension : FilePath → Option Text
  pub sort : List FilePath → List FilePath

-- The texts are the same.
abbrev pub is_text : Text → Text → Bool
is_text s t = holds (Text-discrete s t)

-- The directories that are not searched.
unfoldable pub is_skipped : Text → Bool
unfolding any Text-discrete
is_skipped name =
    any (is_text name) (codes ".git" ∷ codes "node_modules" ∷ codes "target" ∷ codes "vendor" ∷ [])

abbrev pub or_empty : Option Text → Text
or_empty none = []
or_empty (some t) = t

abbrev pub is_wanted : List Text → Option Text → Bool
is_wanted exts none = false
is_wanted exts (some x) = any (λ e. is_text e x) exts

module _ (fs : Fs) (exts : List Text) where
  -- The body of the loop over the entries: the stack, whose top is its head, and the files so far.
  unfoldable pub place : FilePath → List FilePath × List FilePath → List FilePath × List FilePath
  unfolding is_skipped any
  place p (stack, out) =
      if fs.is_dir p
      then if not (is_skipped (or_empty (fs.file_name p))) then (p ∷ stack, out) else (stack, out)
      else if is_wanted exts (fs.extension p)
      then (stack, out ++ p ∷ [])
      else (stack, out)

  unfoldable pub visit :
      List FilePath → List FilePath × List FilePath → List FilePath × List FilePath
  unfolding place
  visit [] found = found
  visit (p ∷ entries) found = visit entries (place p found)

  -- The `while` loop; out of fuel it gives nothing.
  unfoldable pub walk : ℕ → List FilePath × List FilePath → Option (List FilePath)
  unfolding visit
  walk zero found = none
  walk (suc fuel) ([], out) = some out
  walk (suc fuel) (dir ∷ stack, out) = elim (fs.read_dir dir) [
    | none ↦ walk fuel (stack, out)
    | some entries ↦ walk fuel (visit entries (stack, out))
  ]

unfoldable pub source_files : Fs → ℕ → FilePath → List Text → Option (List FilePath)
unfolding walk
source_files fs fuel root exts = Option.map fs.sort (walk fs exts fuel (root ∷ [], []))
