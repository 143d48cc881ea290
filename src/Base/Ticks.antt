-- ===== src/Base/Ticks.antt =====
-- Times at a fixed distance, as a timer gives them.
use h2hc_linker.Base.Tests.{ltb, Bool-cases}
use Prim.Native.Nat.{ℕ, zero, suc, ◌+◌, ◌≤◌, ◌<◌}
use mathlib.Core.List.{List, [], ◌∷◌}
use mathlib.Core.Logic.{inl, inr}
use native.Mathlib.Omega.{arith}

-- The time `n` intervals on, and the times of the ticks until then.
abbrev pub later : ℕ → ℕ → ℕ → ℕ
later interval first zero = first
later interval first (suc n) = later interval (first + interval) n

abbrev pub every : ℕ → ℕ → ℕ → List ℕ
every interval first zero = first ∷ []
every interval first (suc n) = first ∷ every interval (first + interval) n

-- The last tick of the row is the first one past a limit.
pub past_limit :
    (interval limit fuel first : ℕ)
    → limit < first + fuel
    → 0 < interval
    → first ≤ limit + interval
    → (n : ℕ) × (limit < later interval first n) × (later interval first n ≤ limit + interval)
past_limit interval limit zero first h p q = (0, ground arith, ground arith)
past_limit interval limit (suc fuel) first h p q = elim (Bool-cases (ltb limit first)) [
  | inl e ↦ (0, ground (arith, e), q)
  | inr e ↦
      let (n, lo, hi) =
        past_limit interval limit fuel (first + interval) (ground (arith, e)) p
          (ground (arith, e)) in
      (suc n, lo, hi)
]
