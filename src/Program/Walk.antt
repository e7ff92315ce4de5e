-- ===== src/Program/Walk.antt =====
-- What the loop of `source_files` in crates/lspgraph-tui/src/main.rs finds, and that it ends.
use lspgraph.Program.Sources.{
  Among, is_searched, is_source, IsBelow, here, deeper, visit-All, visit-stack, visit-out,
  place_cases,
}
use mathlib.Core.Option
use lspgraph.Base.{
  if◌then◌else◌, ◌∙◌, ℕ, zero, suc, ◌+◌, ◌≤◌, ◌<◌, true, Option, none, some, List, [], ◌∷◌, Text,
  ◌≡◌, ◌⊎◌, ◌↔◌, inl, inr, refl, sym, ap, subst, arith, All, Option-cases,
}
use lspgraph.Engine.{FilePath}
use lspgraph.Program.Files.{Fs, place, visit, walk, source_files}

abbrev AmongSome : FilePath → Option (List FilePath) → Type 0
AmongSome q none = Unit
AmongSome q (some files) = Among q files

module _ (fs : Fs) (exts : List Text) where
  -- What a file below a directory says of the directory's entries.
  entries-IsBelow :
      {q dir : FilePath}
      → IsBelow fs exts q dir
      → (entries : List FilePath) × (fs.read_dir dir ≡ some entries)
        × ((Among q entries × (is_source fs exts q ≡ true))
            ⊎ ((sub : FilePath) × Among sub entries
                × (is_searched fs exts sub ≡ true)
                × IsBelow fs exts q sub))
  entries-IsBelow (here {entries} e h s) = (entries, e, inl (h, s))
  entries-IsBelow (deeper {sub = sub} {entries} e h s b) = (entries, e, inr (sub, h, s, b))

  abbrev AllSome : (FilePath → Type 0) → Option (List FilePath) → Type 0
  AllSome P none = Unit
  AllSome P (some files) = All P files

  -- What the walk has found or will come to.
  abbrev IsWaiting : FilePath → List FilePath → List FilePath → Type 0
  IsWaiting q stack out = Among q out ⊎ ((dir : FilePath) × Among dir stack × IsBelow fs exts q dir)

  passed :
      (q dir : FilePath) (stack out : List FilePath)
      → fs.read_dir dir ≡ none
      → IsWaiting q (dir ∷ stack) out
      → IsWaiting q stack out
  passed q dir stack out e (inl found) = inl found
  passed q dir stack out e (inr (d, inr on, b)) = inr (d, on, b)
  passed q dir stack out e (inr (d, inl same, b)) =
      let (_, e', _) = entries-IsBelow (subst (IsBelow fs exts q) (sym same) b) in absurd cc

  visited :
      (q dir : FilePath) (stack out entries : List FilePath)
      → fs.read_dir dir ≡ some entries
      → IsWaiting q (dir ∷ stack) out
      → let (stack', out') = visit fs exts entries (stack, out) in IsWaiting q stack' out'
  visited q dir stack out entries e (inl found) =
      inl (visit-out fs exts q entries stack out (inl found))
  visited q dir stack out entries e (inr (d, inr on, b)) =
      inr (d, visit-stack fs exts d entries stack out (inl on), b)
  visited q dir stack out entries e (inr (d, inl same, b)) =
      let (entries', e', below) = entries-IsBelow (subst (IsBelow fs exts q) (sym same) b) in
      let same_entries : some entries' ≡ some entries = sym e' ∙ e in
      elim below [
        | inl (h, s) ↦
            inl
              (visit-out fs exts q entries stack out (inr (subst (AmongSome q) same_entries h, s)))
        | inr (sub, h, s, b') ↦ inr (
          sub,
          visit-stack fs exts sub entries stack out (inr (subst (AmongSome sub) same_entries h, s)),
          b',
        )
      ]

  walk-finds :
      (fuel : ℕ) (q : FilePath) (stack out files : List FilePath)
      → walk fs exts fuel (stack, out) ≡ some files
      → IsWaiting q stack out
      → Among q files
  unfolding walk
  walk-finds zero q stack out files = λ h. cc
  walk-finds (suc fuel) q [] out files =
      λ h w. elim w [ inl found ↦ subst (AmongSome q) h found | inr (dir, on, _) ↦ elim on [ ] ]
  walk-finds (suc fuel) q (dir ∷ stack) out files = elim (Option-cases (fs.read_dir dir)) [
    | inl e ↦ rw (walk, e) (λ h w. walk-finds fuel q stack out files h (passed q dir stack out e w))
    | inr (entries, e) ↦
        rw (walk, e)
          (λ h w.
            let (stack', out') = visit fs exts entries (stack, out) in
            walk-finds fuel q stack' out' files h (visited q dir stack out entries e w))
  ]

  -- What the walk finds lies below the root, if its stack and what it has found do.
  walk-All :
      (root : FilePath) (fuel : ℕ) (stack out files : List FilePath)
      → walk fs exts fuel (stack, out) ≡ some files
      → All (λ d. (q : FilePath) → IsBelow fs exts q d → IsBelow fs exts q root) stack
      → All (λ q. IsBelow fs exts q root) out
      → All (λ q. IsBelow fs exts q root) files
  unfolding walk
  walk-All root zero stack out files = λ h. cc
  walk-All root (suc fuel) [] out files =
      λ h _ found. subst (AllSome (λ q. IsBelow fs exts q root)) h found
  walk-All root (suc fuel) (dir ∷ stack) out files = elim (Option-cases (fs.read_dir dir)) [
    | inl e ↦ rw (walk, e) (λ h below found. walk-All root fuel stack out files h below.1 found)
    | inr (entries, e) ↦
        rw (walk, e)
          (λ h below found.
            let (stack', out') = visit fs exts entries (stack, out) in
            let all =
              visit-All fs exts (λ d. (q : FilePath) → IsBelow fs exts q d → IsBelow fs exts q root)
                (λ q. IsBelow fs exts q root) entries stack out
                (λ p h s q b. below.0 q (deeper e h s b)) (λ p h s. below.0 p (here e h s)) below.1
                found in
            walk-All root fuel stack' out' files h all.0 all.1)
  ]

  -- How much is to search in a list of directories, where `size` bounds what lies below each.
  abbrev load : (FilePath → ℕ) → List FilePath → ℕ
  load size [] = 0
  load size (d ∷ stack) = size d + 1 + load size stack

  abbrev weight : (FilePath → ℕ) → FilePath → ℕ
  weight size p = if is_searched fs exts p then size p + 1 else 0

  -- The same for the entries of a directory.
  abbrev pub weigh : (FilePath → ℕ) → List FilePath → ℕ
  weigh size [] = 0
  weigh size (p ∷ entries) = weight size p + weigh size entries

  -- No directory lies below itself: `size` is at least the sizes of the directories below it, each
  -- counted once more.
  abbrev pub IsFinite : (FilePath → ℕ) → Type 0
  IsFinite size =
      (dir : FilePath) (entries : List FilePath)
      → fs.read_dir dir ≡ some entries
      → weigh size entries ≤ size dir

  place-load :
      (size : FilePath → ℕ) (p : FilePath) (stack out : List FilePath)
      → load size (place fs exts p (stack, out)).0 ≡ weight size p + load size stack
  place-load size p stack out =
      place_cases fs exts (λ r. load size r.0 ≡ weight size p + load size stack) p stack out
        (λ s. rw s (omega arith)) (λ s. ground arith) (λ s t. rw s (omega arith))

  visit-load :
      (size : FilePath → ℕ) (entries stack out : List FilePath)
      → load size (visit fs exts entries (stack, out)).0 ≡ weigh size entries + load size stack
  unfolding visit
  visit-load size [] stack out = omega arith
  visit-load size (p ∷ entries) stack out =
      let (stack', out') = place fs exts p (stack, out) in
      omega (arith, visit-load size entries stack' out', place-load size p stack out)

  walk-ends :
      (size : FilePath → ℕ) (fuel : ℕ) (stack out : List FilePath)
      → IsFinite size
      → load size stack < fuel
      → (files : List FilePath) × (walk fs exts fuel (stack, out) ≡ some files)
  unfolding walk
  walk-ends size zero stack out finite = λ h. absurd (omega arith)
  walk-ends size (suc fuel) [] out finite = λ h. (out, refl)
  walk-ends size (suc fuel) (dir ∷ stack) out finite = elim (Option-cases (fs.read_dir dir)) [
    | inl e ↦ rw (walk, e) (λ h. walk-ends size fuel stack out finite (omega arith))
    | inr (entries, e) ↦
        rw (walk, e)
          (λ h.
            let (stack', out') = visit fs exts entries (stack, out) in
            walk-ends size fuel stack' out' finite
              (omega (arith, visit-load size entries stack out, finite dir entries e)))
  ]

all_among :
    (P : FilePath → Type 0) (q : FilePath) (files : List FilePath)
    → All P files
    → Among q files
    → P q
all_among P q [] h m = elim m [ ]
all_among P q (p ∷ files) h (inl same) = subst P same h.0
all_among P q (p ∷ files) h (inr m) = all_among P q files h.1 m

-- `sort` keeps the elements.
abbrev pub IsSorting : (List FilePath → List FilePath) → Type 0
IsSorting sort = (files : List FilePath) (q : FilePath) → Among q (sort files) ↔ Among q files

module _ (fs : Fs) (exts : List Text) where
  -- Where the loop ends and the sorting keeps the elements, `source_files` finds a path if and only if
  -- it is a file with one of the extensions that lies below the root, in directories that can be read
  -- and whose names are not among the four that are skipped.
  pub source_files-IsBelow :
      (fuel : ℕ) (root : FilePath) (files : List FilePath)
      → IsSorting fs.sort
      → source_files fs fuel root exts ≡ some files
      → (q : FilePath) → Among q files ↔ IsBelow fs exts q root
  unfolding source_files
  source_files-IsBelow fuel root files sorting =
      elim (Option-cases (walk fs exts fuel (root ∷ [], []))) [
        | inl e ↦ rw e (λ h. cc)
        | inr (found, e) ↦ rw e (λ h q. (
          λ m.
              all_among (λ p. IsBelow fs exts p root) q found
                (walk-All fs exts root fuel (root ∷ []) [] found e ((λ p b. b), tt) tt)
                ((sorting found q).0 (subst (AmongSome q) (sym h) m)),
          λ b. subst (AmongSome q) h (
              (sorting found q).1
                (walk-finds fs exts fuel q (root ∷ []) [] found e (inr (root, inl refl, b)))),
        ))
      ]

  -- Where no directory lies below itself, as the bound `size` on what lies below each says,
  -- `source_files` ends, on fuel for two rounds more than the bound of the root.
  pub source_files-ends :
      (size : FilePath → ℕ) (root : FilePath)
      → IsFinite fs exts size
      → (files : List FilePath) × (source_files fs (suc (suc (size root))) root exts ≡ some files)
  unfolding source_files
  source_files-ends size root finite =
      let (files, h) =
        walk-ends fs exts size (suc (suc (size root))) (root ∷ []) [] finite (omega arith) in
      (fs.sort files, ap (Option.map fs.sort) h)
