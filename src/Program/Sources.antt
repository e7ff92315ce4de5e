-- ===== src/Program/Sources.antt =====
-- Which files `source_files` of crates/lspgraph-tui/src/main.rs finds, and that it ends.
use lspgraph.Base.{
  Bool, true, false, not, ◌&&◌, some, List, [], ◌∷◌, ◌++◌, Text, ◌≡◌, ◌⊎◌, inl, inr, refl, sym,
  subst, arith, All, All-append, Any, Any-append, Any-append_right, Bool-cases,
}
use lspgraph.Engine.{FilePath}
use lspgraph.Program.Files.{Fs, is_skipped, or_empty, is_wanted, place, visit}

abbrev pub Among : FilePath → List FilePath → Type 0
Among p = Any (λ q. q ≡ p)

module _ (fs : Fs) (exts : List Text) where
  -- A directory that is searched, and a file that is wanted.
  abbrev pub is_searched : FilePath → Bool
  is_searched p = fs.is_dir p && not (is_skipped (or_empty (fs.file_name p)))

  abbrev pub is_source : FilePath → Bool
  is_source p = not (fs.is_dir p) && is_wanted exts (fs.extension p)

  -- The file is wanted and lies below the directory, in directories that are searched and can be read.
  pub data IsBelow (p : FilePath) : FilePath → Type 0 where
    here :
        {dir : FilePath} {entries : List FilePath}
        → fs.read_dir dir ≡ some entries
        → Among p entries
        → is_source p ≡ true
        → IsBelow p dir
    deeper :
        {dir sub : FilePath} {entries : List FilePath}
        → fs.read_dir dir ≡ some entries
        → Among sub entries
        → is_searched sub ≡ true
        → IsBelow p sub
        → IsBelow p dir

  -- The ways in which an entry is placed.
  pub place_cases {ℓ} :
      (P : List FilePath × List FilePath → Type ℓ) (p : FilePath) (stack out : List FilePath)
      → (is_searched p ≡ true → P (p ∷ stack, out))
      → (is_source p ≡ true → P (stack, out ++ p ∷ []))
      → (is_searched p ≡ false → is_source p ≡ false → P (stack, out))
      → P (place fs exts p (stack, out))
  unfolding place
  place_cases P p stack out searched source neither = elim (Bool-cases (fs.is_dir p)) [
    | inl d ↦ elim (Bool-cases (is_skipped (or_empty (fs.file_name p)))) [
      | inl s ↦ rw (place, d, s) (neither (rw (d, s) refl) (rw d refl))
      | inr s ↦ rw (place, d, s) (searched (rw (d, s) refl))
    ]
    | inr d ↦ elim (Bool-cases (is_wanted exts (fs.extension p))) [
      | inl w ↦ rw (place, d, w) (source (rw (d, w) refl))
      | inr w ↦ rw (place, d, w) (neither (rw d refl) (rw (d, w) refl))
    ]
  ]

  -- What a visit adds is among the entries.
  pub visit-All :
      (P Q : FilePath → Type 0) (entries stack out : List FilePath)
      → ((p : FilePath) → Among p entries → is_searched p ≡ true → P p)
      → ((p : FilePath) → Among p entries → is_source p ≡ true → Q p)
      → All P stack
      → All Q out
      → let r = visit fs exts entries (stack, out) in All P r.0 × All Q r.1
  unfolding visit
  visit-All P Q [] stack out f g hs ho = (hs, ho)
  visit-All P Q (p ∷ entries) stack out f g hs ho =
      let f' : (q : FilePath) → Among q entries → is_searched q ≡ true → P q = λ q h. f q (inr h) in
      let g' : (q : FilePath) → Among q entries → is_source q ≡ true → Q q = λ q h. g q (inr h) in
      place_cases (λ r. let v = visit fs exts entries r in All P v.0 × All Q v.1) p stack out
        (λ s. visit-All P Q entries (p ∷ stack) out f' g' (f p (inl refl) s, hs) ho)
        (λ s.
          visit-All P Q entries stack (out ++ p ∷ []) f' g' hs
            (All-append Q out (p ∷ []) ho (g p (inl refl) s, tt)))
        (λ s t. visit-All P Q entries stack out f' g' hs ho)

  exclusive : (p : FilePath) → is_searched p ≡ true → is_source p ≡ true → ⊥
  exclusive p s t = ground arith

  place-stack :
      (q p : FilePath) (stack out : List FilePath)
      → Among q stack ⊎ ((p ≡ q) × (is_searched p ≡ true))
      → Among q (place fs exts p (stack, out)).0
  place-stack q p stack out (inl h) =
      place_cases (λ r. Among q r.0) p stack out (λ s. inr h) (λ s. h) (λ s t. h)
  place-stack q p stack out (inr (same, t)) =
      place_cases (λ r. Among q r.0) p stack out (λ s. inl same) (λ s. absurd (exclusive p t s))
        (λ s t'. absurd cc)

  place-out :
      (q p : FilePath) (stack out : List FilePath)
      → Among q out ⊎ ((p ≡ q) × (is_source p ≡ true))
      → Among q (place fs exts p (stack, out)).1
  place-out q p stack out (inl h) =
      place_cases (λ r. Among q r.1) p stack out (λ s. h)
        (λ s. Any-append (λ x. x ≡ q) out (p ∷ []) h) (λ s t. h)
  place-out q p stack out (inr (same, t)) =
      place_cases (λ r. Among q r.1) p stack out (λ s. absurd (exclusive p s t))
        (λ s. Any-append_right (λ x. x ≡ q) out (p ∷ []) (inl same)) (λ s t'. absurd cc)

  -- A visit keeps what is on the stack and adds every entry to search.
  pub visit-stack :
      (q : FilePath) (entries stack out : List FilePath)
      → Among q stack ⊎ (Among q entries × (is_searched q ≡ true))
      → Among q (visit fs exts entries (stack, out)).0
  unfolding visit
  visit-stack q [] stack out (inl h) = h
  visit-stack q [] stack out (inr h) = elim h.0 [ ]
  visit-stack q (p ∷ entries) stack out h =
      let (stack', out') = place fs exts p (stack, out) in
      visit-stack q entries stack' out' (elim h [
        | inl on ↦ inl (place-stack q p stack out (inl on))
        | inr (inl same, t) ↦
            inl (
              place-stack q p stack out
                (inr (same, subst (λ x. is_searched x ≡ true) (sym same) t)))
        | inr (inr later, t) ↦ inr (later, t)
      ])

  pub visit-out :
      (q : FilePath) (entries stack out : List FilePath)
      → Among q out ⊎ (Among q entries × (is_source q ≡ true))
      → Among q (visit fs exts entries (stack, out)).1
  unfolding visit
  visit-out q [] stack out (inl h) = h
  visit-out q [] stack out (inr h) = elim h.0 [ ]
  visit-out q (p ∷ entries) stack out h =
      let (stack', out') = place fs exts p (stack, out) in
      visit-out q entries stack' out' (elim h [
        | inl on ↦ inl (place-out q p stack out (inl on))
        | inr (inl same, t) ↦
            inl (place-out q p stack out (inr (same, subst (λ x. is_source x ≡ true) (sym same) t)))
        | inr (inr later, t) ↦ inr (later, t)
      ])
