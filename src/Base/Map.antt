-- ===== src/Base/Map.antt =====
-- `HashMap` and `BTreeMap` as association lists over keys with a decidable equality. Only lookups
-- are observed, but by `len` and by the listings, whose order the code leaves open.
use mathlib.Core.Path.{◌≡◌, refl}
use mathlib.Core.Logic.{ite, ◌≢◌}
use mathlib.Core.Bool.{Bool}
use mathlib.Core.List.{List, [], ◌∷◌, map}
use mathlib.Core.Option
use mathlib.Core.Option.{Option, none, some}
use native.Mathlib.Omega.{arith}
use lspgraph.Base.Tests.{if◌then◌else◌}

module _ {ℓ} {K V : Type ℓ} where
  abbrev pub keys : List (K × V) → List K
  keys = map (λ e. e.0)

  -- Keeps the entries whose key passes the test.
  unfoldable pub retain_keys : (K → Bool) → List (K × V) → List (K × V)
  retain_keys p [] = []
  retain_keys p ((j, v) ∷ m) = if p j then (j, v) ∷ retain_keys p m else retain_keys p m

  -- `for v in m.values_mut()`.
  unfoldable pub map_values : (V → V) → List (K × V) → List (K × V)
  map_values f [] = []
  map_values f ((j, v) ∷ m) = (j, f v) ∷ map_values f m

module _ {ℓ} {K : Type ℓ} (dec : Discrete K) {V : Type ℓ} where
  unfoldable pub get : K → List (K × V) → Option V
  get k [] = none
  get k ((j, v) ∷ m) = ite (dec j k) (some v) (get k m)

  unfoldable pub insert : K → V → List (K × V) → List (K × V)
  insert k v [] = (k, v) ∷ []
  insert k v ((j, w) ∷ m) = ite (dec j k) ((j, v) ∷ m) ((j, w) ∷ insert k v m)

  unfoldable pub remove : K → List (K × V) → List (K × V)
  remove k [] = []
  remove k ((j, v) ∷ m) = ite (dec j k) (remove k m) ((j, v) ∷ remove k m)

  -- `if let Some(v) = m.get_mut(k) { *v = f(v) }`.
  unfoldable pub update : K → (V → V) → List (K × V) → List (K × V)
  update k f [] = []
  update k f ((j, v) ∷ m) = ite (dec j k) ((j, f v) ∷ m) ((j, v) ∷ update k f m)

  pub get-insert :
      (k j : K) (v : V) (m : List (K × V)) → get j (insert k v m) ≡ ite (dec k j) (some v) (get j m)
  unfolding get insert
  get-insert k j v [] = refl
  get-insert k j v ((i, w) ∷ m) = ground (arith, get-insert k j v m)

  pub get-remove : (k j : K) (m : List (K × V)) → get j (remove k m) ≡ ite (dec k j) none (get j m)
  unfolding get remove
  get-remove k j [] = ground arith
  get-remove k j ((i, w) ∷ m) = ground (arith, get-remove k j m)

  pub get-insert_self : (k : K) (v : V) (m : List (K × V)) → get k (insert k v m) ≡ some v
  get-insert_self k v m = ground (arith, get-insert k k v m)

  pub get-insert_other :
      (k j : K) (v : V) (m : List (K × V)) → k ≢ j → get j (insert k v m) ≡ get j m
  get-insert_other k j v m h = ground (arith, get-insert k j v m)

  pub get-remove_self : (k : K) (m : List (K × V)) → get k (remove k m) ≡ none
  get-remove_self k m = ground (arith, get-remove k k m)

  pub get-remove_other : (k j : K) (m : List (K × V)) → k ≢ j → get j (remove k m) ≡ get j m
  get-remove_other k j m h = ground (arith, get-remove k j m)

  pub get-update :
      (k j : K) (f : V → V) (m : List (K × V))
      → get j (update k f m) ≡ ite (dec k j) (Option.map f (get j m)) (get j m)
  unfolding get update
  get-update k j f [] = ground arith
  get-update k j f ((i, w) ∷ m) = ground (arith, get-update k j f m)

  pub get-retain_keys :
      (p : K → Bool) (j : K) (m : List (K × V))
      → get j (retain_keys p m) ≡ (if p j then get j m else none)
  unfolding get retain_keys
  get-retain_keys p j [] = ground arith
  get-retain_keys p j ((i, w) ∷ m) = ground (arith, get-retain_keys p j m)

  pub get-map_values :
      (f : V → V) (j : K) (m : List (K × V)) → get j (map_values f m) ≡ Option.map f (get j m)
  unfolding get map_values
  get-map_values f j [] = refl
  get-map_values f j ((i, w) ∷ m) = ground (arith, get-map_values f j m)

  -- `collect` into a map: a later entry replaces an earlier one with its key.
  unfoldable pub extend : List (K × V) → List (K × V) → List (K × V)
  extend m [] = m
  extend m ((k, v) ∷ l) = extend (insert k v m) l

  -- No key stands twice.
  abbrev pub Distinct : List (K × V) → Type ℓ
  Distinct [] = Unit
  Distinct ((k, v) ∷ m) = (get k m ≡ none) × Distinct m

  pub insert-Distinct : (k : K) (v : V) (m : List (K × V)) → Distinct m → Distinct (insert k v m)
  unfolding get insert
  insert-Distinct k v [] h = (refl, tt)
  insert-Distinct k v ((j, w) ∷ m) h = ground (arith, insert-Distinct k v m h.1, get-insert k j v m)

  pub update-Distinct :
      (k : K) (f : V → V) (m : List (K × V)) → Distinct m → Distinct (update k f m)
  unfolding get update
  update-Distinct k f [] h = tt
  update-Distinct k f ((j, w) ∷ m) h = ground (arith, update-Distinct k f m h.1, get-update k j f m)

  pub remove-Distinct : (k : K) (m : List (K × V)) → Distinct m → Distinct (remove k m)
  unfolding get remove
  remove-Distinct k [] h = tt
  remove-Distinct k ((j, w) ∷ m) h = ground (arith, remove-Distinct k m h.1, get-remove k j m)

  pub map_values-Distinct : (f : V → V) (m : List (K × V)) → Distinct m → Distinct (map_values f m)
  unfolding map_values
  map_values-Distinct f [] h = tt
  map_values-Distinct f ((j, w) ∷ m) h =
      ground (arith, map_values-Distinct f m h.1, get-map_values f j m)

  -- Collecting the entries of a map behind another overrides the other.
  pub get-extend :
      (j : K) (m l : List (K × V))
      → Distinct l
      → get j (extend m l) ≡ (elim (get j l) [ none ↦ get j m | some v ↦ some v ])
  unfolding get extend
  get-extend j m [] h = refl
  get-extend j m ((k, v) ∷ l) h =
      ground (arith, get-extend j (insert k v m) l h.1, get-insert k j v m)

  pub extend-Distinct : (m l : List (K × V)) → Distinct m → Distinct (extend m l)
  unfolding extend
  extend-Distinct m [] h = h
  extend-Distinct m ((k, v) ∷ l) h = extend-Distinct (insert k v m) l (insert-Distinct k v m h)

pub ruleset map_laws = (get-insert, get-remove, get-update, get-retain_keys, get-map_values)
