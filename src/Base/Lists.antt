-- ===== src/Base/Lists.antt =====
-- Lists measured by native numbers, and sets as lists without repetition (Rust's `HashSet`).
use Prim.Native.Nat.{ℕ, suc, ◌+◌}
use mathlib.Core.Path.{◌≡◌, refl}
use mathlib.Core.Bool.{Bool, false, ◌||◌}
use mathlib.Core.List.{List, [], ◌∷◌, ◌++◌}
use native.Mathlib.Omega.{arith}
use h2hc_linker.Base.Tests.{HashEq, ◌==◌, if◌then◌else◌}

module _ {ℓ} {A : Type ℓ} where
  abbrev pub length : List A → ℕ
  length [] = 0
  length (x ∷ xs) = suc (length xs)

  pub length-append : (xs ys : List A) → length (xs ++ ys) ≡ length xs + length ys
  length-append [] ys = omega arith
  length-append (x ∷ xs) ys = omega (arith, length-append xs ys)

  -- Keeps the elements that pass the test (`Vec::retain`, `Iterator::filter`).
  abbrev pub filter : (A → Bool) → List A → List A
  filter p [] = []
  filter p (x ∷ xs) = let rest = filter p xs in if p x then x ∷ rest else rest

module _ {ℓ} {A : Type ℓ} ⦃e : HashEq A⦄ where
  abbrev pub contains : List A → A → Bool
  contains [] a = false
  contains (x ∷ xs) a = (x == a) || contains xs a

  -- `HashSet::insert`.
  abbrev pub set_insert : A → List A → List A
  set_insert a xs = if contains xs a then xs else a ∷ xs

  -- `collect` of an iterator into a `HashSet`.
  abbrev pub collect_set : List A → List A
  collect_set [] = []
  collect_set (x ∷ xs) = set_insert x (collect_set xs)

  pub contains-set_insert :
      (a b : A) (xs : List A) → contains (set_insert a xs) b ≡ ((a == b) || contains xs b)
  contains-set_insert a b xs = ground (arith, e.same_iff a b)

  pub contains-collect_set : (xs : List A) (b : A) → contains (collect_set xs) b ≡ contains xs b
  contains-collect_set [] b = refl
  contains-collect_set (x ∷ xs) b =
      ground (arith, contains-set_insert x b (collect_set xs), contains-collect_set xs b)
