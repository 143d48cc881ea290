-- ===== src/Registration/Order.antt =====
-- The order of the keys of a `BTreeMap<&str, _>`.
use Prim.Native.Nat.{Ordering}
use Prim.Native.String.compare
use Prim.Native.String.{compare as order, [] as empty, ◌∷◌ as ◌⊳◌}
use h2hc_linker.Base.{String, ◌≡◌, refl, arith}

abbrev pub flip : Ordering → Ordering
flip Ordering.lt = Ordering.gt
flip Ordering.eq = Ordering.eq
flip Ordering.gt = Ordering.lt

pub order-flip : (s t : String) → order t s ≡ flip (order s t)
order-flip empty empty = refl
order-flip empty (d ⊳ t) = rw (compare.nil-cons d t, compare.cons-nil d t) refl
order-flip (c ⊳ s) empty = rw (compare.nil-cons c s, compare.cons-nil c s) refl
order-flip (c ⊳ s) (d ⊳ t) =
    rw (compare.cons-cons c d s t, compare.cons-cons d c t s) (ground (arith, order-flip s t))

pub order_refl : (s : String) → order s s ≡ Ordering.eq
order_refl s = ground (arith, order-flip s s)

pub order_trans :
    (s t u : String) → order s t ≡ Ordering.lt → order t u ≡ Ordering.lt → order s u ≡ Ordering.lt
order_trans s empty empty p q = absurd (ground (arith, q, order_refl empty))
order_trans empty empty (e ⊳ u) p q = q
order_trans (c ⊳ s) empty u p q = absurd (ground (arith, p, compare.cons-nil c s))
order_trans s (d ⊳ t) empty p q = absurd (ground (arith, q, compare.cons-nil d t))
order_trans empty (d ⊳ t) (e ⊳ u) p q = rw (compare.nil-cons e u) refl
order_trans (c ⊳ s) (d ⊳ t) (e ⊳ u) p q =
    rw (compare.cons-cons c e s u) (
      ground (arith, p, q, compare.cons-cons c d s t, compare.cons-cons d e t u, order_trans s t u))
