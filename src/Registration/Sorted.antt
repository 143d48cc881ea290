-- ===== src/Registration/Sorted.antt =====
-- src/registration.rs: the map of `canonical_json` does not depend on the order of the fields.
use Prim.Native.Nat.{Ordering}
use Prim.Native.String.{compare}
use mathlib.Core.List.{Permᴰ}
use text.Mathlib.TextEquality.{path_by_compare}
use h2hc_linker.Base.{
  String, ◌≡◌, ◌≢◌, ◌⊎◌, inl, inr, refl, sym, List, [], ◌∷◌, arith, ap, subst, ◌∙◌,
}
use h2hc_linker.Base.Maps.{Map}
use h2hc_linker.Registration.Order.{order-flip, order_trans}
use h2hc_linker.Registration.Canonical.{btree_insert, collected, canonical_json}

btree_insert_less :
    (k j v w : String) (m : Map String String)
    → compare k j ≡ Ordering.lt
    → btree_insert k v (btree_insert j w m) ≡ btree_insert j w (btree_insert k v m)
unfolding btree_insert
btree_insert_less k j v w [] h = ground (arith, h, order-flip k j)
btree_insert_less k j v w ((i, x) ∷ m) h = ground (
  arith,
  h,
  order-flip k j,
  order-flip j i,
  order-flip k i,
  order_trans k j i,
  order_trans i k j,
  path_by_compare j i,
  path_by_compare k i,
  btree_insert_less k j v w m h,
)

Ordering-cases : (o : Ordering) → (o ≡ Ordering.lt) ⊎ ((o ≡ Ordering.eq) ⊎ (o ≡ Ordering.gt))
Ordering-cases Ordering.lt = inl refl
Ordering-cases Ordering.eq = inr (inl refl)
Ordering-cases Ordering.gt = inr (inr refl)

btree_insert_swap :
    (k j v w : String) (m : Map String String)
    → k ≢ j
    → btree_insert k v (btree_insert j w m) ≡ btree_insert j w (btree_insert k v m)
btree_insert_swap k j v w m n = elim (Ordering-cases (compare k j)) [
  | inl h ↦ btree_insert_less k j v w m h
  | inr (inl h) ↦ absurd (n (path_by_compare k j h))
  | inr (inr h) ↦ sym (btree_insert_less j k w v m (ground (arith, h, order-flip k j)))
]

-- The keys are distinct.
abbrev pub Without : String → List (String × String) → Type 0
Without k [] = Unit
Without k (f ∷ fields) = (k ≢ f.0) × Without k fields

abbrev pub DistinctKeys : List (String × String) → Type 0
DistinctKeys [] = Unit
DistinctKeys (f ∷ fields) = Without f.0 fields × DistinctKeys fields

Without-perm :
    {fields fields' : List (String × String)}
    → Permᴰ fields fields'
    → (k : String) → Without k fields
    → Without k fields'
Without-perm Permᴰ.nil k h = h
Without-perm (Permᴰ.cons e d) k h = (subst (λ f. k ≢ f.0) e h.0, Without-perm d k h.1)
Without-perm (Permᴰ.swap e₁ e₂) k (n, (o, h)) =
    (subst (λ f. k ≢ f.0) e₂ o, (subst (λ f. k ≢ f.0) e₁ n, h))
Without-perm (Permᴰ.trans d₁ d₂) k h = Without-perm d₂ k (Without-perm d₁ k h)

DistinctKeys-perm :
    {fields fields' : List (String × String)}
    → Permᴰ fields fields'
    → DistinctKeys fields
    → DistinctKeys fields'
DistinctKeys-perm Permᴰ.nil h = h
DistinctKeys-perm (Permᴰ.cons {l₂ = l₂} e d) h =
    (subst (λ f. Without f.0 l₂) e (Without-perm d _ h.0), DistinctKeys-perm d h.1)
DistinctKeys-perm (Permᴰ.swap {a = a} {b = b} {a' = a'} {b' = b'} {l = l} e₁ e₂)
      ((n, h₁), (h₂, h)) =
    (
      (
        subst (λ f. a'.0 ≢ f.0) e₁ (subst (λ f. f.0 ≢ a.0) e₂ (λ e. n (sym e))),
        subst (λ f. Without f.0 l) e₂ h₂,
      ),
      (subst (λ f. Without f.0 l) e₁ h₁, h),
    )
DistinctKeys-perm (Permᴰ.trans d₁ d₂) h = DistinctKeys-perm d₂ (DistinctKeys-perm d₁ h)

collected-perm :
    {fields fields' : List (String × String)}
    → Permᴰ fields fields'
    → DistinctKeys fields
    → (m : Map String String) → collected fields m ≡ collected fields' m
unfolding collected
collected-perm Permᴰ.nil h m = refl
collected-perm (Permᴰ.cons {a = a} {b = b} {l₁ = l₁} {l₂ = l₂} e d) (h, t) m =
    subst (λ f. collected (a ∷ l₁) m ≡ collected (f ∷ l₂) m) e
      (collected-perm d t (btree_insert a.0 a.1 m))
collected-perm (Permᴰ.swap {a = a} {b = b} {a' = a'} {b' = b'} {l = l} e₁ e₂) ((n, _), _) m =
    let same = btree_insert_swap b.0 a.0 b.1 a.1 m (λ e. n (sym e)) in
    ap (collected l) same
    ∙ subst
        (λ f.
          collected l (btree_insert a.0 a.1 (btree_insert b.0 b.1 m))
          ≡ collected l (btree_insert f.0 f.1 (btree_insert a'.0 a'.1 m)))
        e₁ (ap (λ f. collected l (btree_insert a.0 a.1 (btree_insert f.0 f.1 m))) e₂)
collected-perm (Permᴰ.trans d₁ d₂) h m =
    collected-perm d₁ h m ∙ collected-perm d₂ (DistinctKeys-perm d₁ h) m

-- For fields with distinct keys, the text that is signed does not depend on the order in which they
-- are given.
pub canonical_json-perm :
    (json_string : String → String) (fields fields' : List (String × String))
    → Permᴰ fields fields'
    → DistinctKeys fields
    → canonical_json json_string fields ≡ canonical_json json_string fields'
unfolding canonical_json
canonical_json-perm json_string fields fields' d h = rw (collected-perm d h []) refl
