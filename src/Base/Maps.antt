-- ===== src/Base/Maps.antt =====
-- A hash map as an association list with distinct keys (Rust's `HashMap`).
use mathlib.Core.Path.{◌≡◌, refl}
use mathlib.Core.Bool.{Bool}
use mathlib.Core.List.{List, [], ◌∷◌}
use mathlib.Core.Option
use mathlib.Core.Option.{Option, none, some}
use native.Mathlib.Omega.{arith}
use h2hc_linker.Base.Tests.{HashEq, ◌==◌, if◌then◌else◌, is_some}

abbrev pub Map {ℓ} : Type ℓ → Type ℓ → Type ℓ
Map K V = List (K × V)

-- An optional value that passes a test.
abbrev pub keep_if {ℓ} : {A : Type ℓ} → (A → Bool) → Option A → Option A
keep_if p none = none
keep_if p (some a) = if p a then some a else none

module _ {ℓ} {K V : Type ℓ} ⦃e : HashEq K⦄ where
  -- `get`
  abbrev pub lookup : K → Map K V → Option V
  lookup k [] = none
  lookup k ((j, v) ∷ m) = if j == k then some v else lookup k m

  -- `contains_key`
  abbrev pub has_key : K → Map K V → Bool
  has_key k m = is_some (lookup k m)

  -- `insert`
  abbrev pub insert : K → V → Map K V → Map K V
  insert k new [] = (k, new) ∷ []
  insert k new ((j, old) ∷ m) =
      let rest = insert k new m in if j == k then (k, new) ∷ m else (j, old) ∷ rest

  -- `remove`
  abbrev pub remove : K → Map K V → Map K V
  remove k [] = []
  remove k ((j, w) ∷ m) = let rest = remove k m in if j == k then rest else (j, w) ∷ rest

  -- `retain`, by a test of the value
  abbrev pub retain : (V → Bool) → Map K V → Map K V
  retain p [] = []
  retain p ((j, w) ∷ m) = let rest = retain p m in if p w then (j, w) ∷ rest else rest

  -- An update of every value in place (`values_mut`).
  abbrev pub map_values : (V → V) → Map K V → Map K V
  map_values f [] = []
  map_values f ((j, w) ∷ m) = (j, f w) ∷ map_values f m

  -- The keys are distinct.
  abbrev pub Unique : Map K V → Type ℓ
  Unique [] = Unit
  Unique ((k, v) ∷ m) = (lookup k m ≡ none) × Unique m

  pub lookup-insert :
      (k j : K) (v : V) (m : Map K V)
      → lookup j (insert k v m) ≡ (if k == j then some v else lookup j m)
  lookup-insert k j v [] = refl
  lookup-insert k j v ((i, w) ∷ m) =
      ground (arith, e.same_iff k j, e.same_iff i k, e.same_iff i j, lookup-insert k j v m)

  pub lookup-remove :
      (k j : K) (m : Map K V) → lookup j (remove k m) ≡ (if k == j then none else lookup j m)
  lookup-remove k j [] = ground arith
  lookup-remove k j ((i, w) ∷ m) =
      ground (arith, e.same_iff k j, e.same_iff i k, e.same_iff i j, lookup-remove k j m)

  lookup-retain-none :
      (p : V → Bool) (k : K) (m : Map K V) → lookup k m ≡ none → lookup k (retain p m) ≡ none
  lookup-retain-none p k [] h = refl
  lookup-retain-none p k ((i, w) ∷ m) h = ground (arith, lookup-retain-none p k m)

  pub lookup-retain :
      (p : V → Bool) (k : K) (m : Map K V)
      → Unique m
      → lookup k (retain p m) ≡ keep_if p (lookup k m)
  lookup-retain p k [] u = refl
  lookup-retain p k ((i, w) ∷ m) u =
      ground (arith, e.same_iff i k, u, lookup-retain p k m u.1, lookup-retain-none p k m)

  pub lookup-map_values :
      (f : V → V) (k : K) (m : Map K V) → lookup k (map_values f m) ≡ Option.map f (lookup k m)
  lookup-map_values f k [] = refl
  lookup-map_values f k ((i, w) ∷ m) = ground (arith, lookup-map_values f k m)

  pub insert-Unique : (k : K) (v : V) (m : Map K V) → Unique m → Unique (insert k v m)
  insert-Unique k v [] u = (refl, tt)
  insert-Unique k v ((i, w) ∷ m) u =
      ground (arith, e.same_iff i k, e.same_iff k i, lookup-insert k i v m, insert-Unique k v m u.1)

  pub remove-Unique : (k : K) (m : Map K V) → Unique m → Unique (remove k m)
  remove-Unique k [] u = tt
  remove-Unique k ((i, w) ∷ m) u = ground (arith, lookup-remove k i m, remove-Unique k m u.1)

  pub retain-Unique : (p : V → Bool) (m : Map K V) → Unique m → Unique (retain p m)
  retain-Unique p [] u = tt
  retain-Unique p ((i, w) ∷ m) u =
      ground (arith, lookup-retain-none p i m u.0, retain-Unique p m u.1)

  pub map_values-Unique : (f : V → V) (m : Map K V) → Unique m → Unique (map_values f m)
  map_values-Unique f [] u = tt
  map_values-Unique f ((i, w) ∷ m) u =
      ground (arith, lookup-map_values f i m, map_values-Unique f m u.1)
