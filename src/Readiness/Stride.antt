-- ===== src/Readiness/Stride.antt =====
-- `even_stride`: how many samples it takes, and where.
use native.Mathlib.Nat.{
  div-eq_of_lt, mul-div_cancel, mod-eq_of_lt, lt-div-mul-add, mul-le-mul_right, mul_comm,
  mul-lt-mul_of_pos_right, le-div_iff_mul-le, div-lt_iff_lt-mul, div-mul-le_self,
}
use lspgraph.Base.{
  ℕ, zero, suc, ◌+◌, ◌-◌, ◌*◌, ◌/◌, ◌%◌, ◌^◌, ◌<◌, ◌≤◌, List, [], ◌∷◌, ◌≡◌, ◌∙◌, length, Option,
  get_elem?, arith, some, none, get_elem?-lt, min, map, ◌==◌, leb, Bool-cases, inl, inr, refl, ap,
  subst, All, ◌≢◌, false,
}
use lspgraph.Readiness.{sample_index, sample_from, even_stride}

-- Where samples are taken is within the items, whether the product wraps or not.
sample_index-lt : (len max i : ℕ) → 0 < max → i < max → 0 < len → sample_index len max i < len
sample_index-lt len max i pos inside some_item =
    let below : i * len < len * max =
      subst (λ n. i * len < n) (mul_comm max len) (mul-lt-mul_of_pos_right inside some_item) in
    (div-lt_iff_lt-mul pos).1 (omega (arith, below))

sample_index_whole :
    (len max i : ℕ) → i ≤ max → len * max < 2 ^ 64 → i * len % 2 ^ 64 / max ≡ i * len / max
sample_index_whole len max i inside small =
    let below : i * len ≤ len * max =
      subst (λ n. i * len ≤ n) (mul_comm max len) (mul-le-mul_right len inside) in
    ap (λ n. n / max) (mod-eq_of_lt (omega (arith, below, small)))

-- Where no product wraps, consecutive samples are `len / max` positions apart or one more.
sample_index_gap :
    (len max i : ℕ)
    → 0 < max
    → i < max
    → len * max < 2 ^ 64
    → (sample_index len max i + len / max ≤ sample_index len max (i + 1))
      × (sample_index len max (i + 1) ≤ sample_index len max i + len / max + 1)
sample_index_gap len max i pos inside small =
    let inner : i ≤ max = omega arith in
    let next : i + 1 ≤ max = omega arith in
    let lower : (i * len / max + len / max) * max ≤ (i + 1) * len =
      grind (arith, div-mul-le_self (i * len) max, div-mul-le_self len max) in
    let upper : (i + 1) * len < (i * len / max + len / max + 2) * max =
      grind (arith, lt-div-mul-add {a = i * len} pos, lt-div-mul-add {a = len} pos) in
    let next_lt : (i + 1) * len / max < i * len / max + len / max + 2 =
      (div-lt_iff_lt-mul pos).1 upper in
    rw (sample_index_whole len max i inner small, sample_index_whole len max (i + 1) next small)
      ((le-div_iff_mul-le pos).1 lower, omega (arith, next_lt))

-- Behind the last sample would be the end.
sample_index_end : (len max : ℕ) → 0 < max → len * max < 2 ^ 64 → sample_index len max max ≡ len
sample_index_end len max pos small =
    let here : max ≤ max = omega arith in
    sample_index_whole len max max here small
    ∙ ap (λ n. n / max) (mul_comm max len)
    ∙ mul-div_cancel len pos

not_zero : (n : ℕ) → (suc n == 0) ≡ false
not_zero n = ground arith

module _ {ℓ} {A : Type ℓ} where
  sample_from-All :
      (items : List A) (max n : ℕ)
      → n ≤ max
      → max ≤ length items
      → All (λ o. o ≢ none) (sample_from items max n)
  unfolding sample_from
  sample_from-All items max zero fits many = tt
  sample_from-All items max (suc n) fits many =
      let h =
        sample_index-lt (length items) max (max - suc n) (omega arith) (omega arith)
          (omega arith) in
      let got = get_elem?-lt items _ h in
      (rw got.1 (λ p. cc), sample_from-All items max n (omega arith) many)

  length-sample_from : (items : List A) (max n : ℕ) → length (sample_from items max n) ≡ n
  unfolding sample_from
  length-sample_from items max zero = refl
  length-sample_from items max (suc n) = ap suc (length-sample_from items max n)

  map-some-All : (xs : List A) → All (λ o. o ≢ none) (map some xs)
  map-some-All [] = tt
  map-some-All (x ∷ xs) = (λ p. cc, map-some-All xs)

  length-map-some : (xs : List A) → length (map some xs) ≡ length xs
  length-map-some [] = refl
  length-map-some (x ∷ xs) = ap suc (length-map-some xs)

  -- `even_stride` takes as many samples as it may, at most all the items, and never indexes past
  -- the end of them, not even where a product wraps.
  pub even_stride-total :
      (items : List A) (max : ℕ)
      → (length (even_stride items max) ≡ min max (length items))
        × All (λ o. o ≢ none) (even_stride items max)
  unfolding even_stride
  even_stride-total [] max = (omega arith, tt)
  even_stride-total (x ∷ items) zero = (omega arith, tt)
  even_stride-total (x ∷ items) (suc max) =
      let all = x ∷ items in
      elim (Bool-cases (leb (length all) (suc max))) [
        | inl few ↦ rw (not_zero max, few) (ground (arith, length-map-some all), map-some-All all)
        | inr many ↦
            rw (not_zero max, many)
              (
                ground (arith, length-sample_from all (suc max) (suc max)),
                sample_from-All all (suc max) (suc max) (omega arith) (ground arith),
              )
      ]

  get_elem?-sample_from :
      (items : List A) (max n i : ℕ)
      → n ≤ max
      → i < n
      → get_elem? (sample_from items max n) i
        ≡ some (get_elem? items (sample_index (length items) max (max - n + i)))
  unfolding sample_from
  get_elem?-sample_from items max zero i fits inside = absurd (omega arith)
  get_elem?-sample_from items max (suc n) zero fits inside =
      let same : max - suc n ≡ max - suc n + 0 = omega arith in
      ap (λ j. some (get_elem? items (sample_index (length items) max j))) same
  get_elem?-sample_from items max (suc n) (suc i) fits inside =
      let same : max - n + i ≡ max - suc n + suc i = omega arith in
      get_elem?-sample_from items max n i (omega arith) (omega arith)
      ∙ ap (λ j. some (get_elem? items (sample_index (length items) max j))) same

  -- `max` samples that are spread over the items: where each is, and how far they are from each other
  -- and from both ends.
  pub record IsEven (items : List A) (max : ℕ) (out : List (Option A)) : Type ℓ where
    pub position : ℕ → ℕ
    pub count : length out ≡ max
    pub sampled :
        (i : ℕ)
        → i < max
        → (x : A) × (get_elem? out i ≡ some (some x)) × (get_elem? items (position i) ≡ some x)
    pub front : position 0 ≡ 0
    pub apart :
        (i : ℕ)
        → i + 1 < max
        → (position i + length items / max ≤ position (i + 1))
          × (position (i + 1) ≤ position i + length items / max + 1)
    pub back : length items ≤ position (max - 1) + length items / max + 1

  sample_from-IsEven :
      (items : List A) (max : ℕ)
      → 0 < max
      → max < length items
      → length items * max < 2 ^ 64
      → IsEven items max (sample_from items max max)
  sample_from-IsEven items max pos many small =
      let len = length items in
      record {
        position = sample_index len max;
        count = length-sample_from items max max;
        sampled = λ i inside.
            let h = sample_index-lt len max i pos inside (omega arith) in
            let (x, there) = get_elem?-lt items (sample_index len max i) h in
            let taken = get_elem?-sample_from items max max i (omega arith) inside in
            let same : max - max + i ≡ i = omega arith in
            (
              x,
              taken
                  ∙ ap (λ j. some (get_elem? items (sample_index len max j))) same
                  ∙ ap some there,
              there,
            );
        front =
            let none_yet : 0 * len % 2 ^ 64 ≡ 0 = omega arith in
            ap (λ n. n / max) none_yet ∙ div-eq_of_lt pos;
        apart = λ i inside. sample_index_gap len max i pos (omega arith) small;
        back =
            let last : max - 1 < max = omega arith in
            let whole : max - 1 + 1 ≡ max = omega arith in
            let gap = (sample_index_gap len max (max - 1) pos last small).1 in
            let end = ap (sample_index len max) whole ∙ sample_index_end len max pos small in
            omega (arith, gap, end);
      }

  -- Out of more items than it may take, where the product of both numbers does not overflow a `usize`,
  -- `even_stride` takes as many as it may, spread over all of them: the first item first, each next
  -- one `len / max` positions further or one more, and the last no further than that from the end.
  pub even_stride-IsEven :
      (items : List A) (max : ℕ)
      → 0 < max
      → max < length items
      → length items * max < 2 ^ 64
      → IsEven items max (even_stride items max)
  unfolding even_stride
  even_stride-IsEven [] max pos many small = absurd (omega arith)
  even_stride-IsEven (x ∷ items) zero pos many small = absurd (omega arith)
  even_stride-IsEven (x ∷ items) (suc max) pos many small =
      let all = x ∷ items in
      let more : leb (length all) (suc max) ≡ false = ground arith in
      rw (not_zero max, more) (sample_from-IsEven all (suc max) pos many small)
