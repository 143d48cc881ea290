-- ===== src/Query/Answers.antt =====
-- src/dht_query.rs: which answer a query gives.
use h2hc_linker.Base.{
  ◌≡◌, ◌≢◌, Bool, List, [], ◌∷◌, Option, none, some, arith, ◌⊎◌, inl, inr, Bool-cases,
  if◌then◌else◌,
}
use h2hc_linker.Error.{LinkerError, LinkerResult, done, failure}
use h2hc_linker.Query.{Task, joined, join_error, await_all, keep_error}

-- A peer of the list gave this answer.
abbrev pub Answered : {A : Type 0} → A → List (Task A) → Type 0
Answered a [] = ⊥
Answered a (t ∷ ts) = (t ≡ joined (done (some a))) ⊎ Answered a ts

-- The first answer that passes the test.
abbrev pub first_good : {A : Type 0} → (A → Bool) → List (Task A) → Option A
first_good good [] = none
first_good good (join_error ∷ ts) = first_good good ts
first_good good (joined (failure e) ∷ ts) = first_good good ts
first_good good (joined (done none) ∷ ts) = first_good good ts
first_good good (joined (done (some a)) ∷ ts) =
    let rest = first_good good ts in if good a then some a else rest

-- No peer answered: each task failed or was lost.
abbrev pub NoneAnswered : {A : Type 0} → List (Task A) → Type 0
NoneAnswered [] = Unit
NoneAnswered (join_error ∷ ts) = NoneAnswered ts
NoneAnswered (joined (failure e) ∷ ts) = NoneAnswered ts
NoneAnswered (joined (done r) ∷ ts) = ⊥

module _ {A : Type 0} (good : A → Bool) where
  await_all_good :
      (ts : List (Task A)) (last : Option (LinkerResult (Option A))) (a : A)
      → first_good good ts ≡ some a
      → await_all good ts last ≡ done (some a)
  await_all_good [] last a h = absurd (ground (arith, h))
  await_all_good (join_error ∷ ts) last a h = await_all_good ts last a h
  await_all_good (joined (failure e) ∷ ts) last a h = await_all_good ts (keep_error e last) a h
  await_all_good (joined (done none) ∷ ts) last a h = await_all_good ts (some (done none)) a h
  await_all_good (joined (done (some b)) ∷ ts) last a h = elim (Bool-cases (good b)) [
    | inl g ↦ ground (arith, g, h)
    | inr g ↦ rw g (await_all_good ts (some (done (some b))) a (ground (arith, g, h)))
  ]

  -- A loop that has seen an answer does not fail.
  await_all_done :
      (ts : List (Task A)) (r : Option A) (e : LinkerError)
      → await_all good ts (some (done r)) ≢ failure e
  await_all_done [] r e h = ground (arith, h)
  await_all_done (join_error ∷ ts) r e h = await_all_done ts r e h
  await_all_done (joined (failure x) ∷ ts) r e h = await_all_done ts r e h
  await_all_done (joined (done none) ∷ ts) r e h = await_all_done ts none e h
  await_all_done (joined (done (some b)) ∷ ts) r e h = elim (Bool-cases (good b)) [
    | inl g ↦ ground (arith, g, h)
    | inr g ↦ await_all_done ts (some b) e (ground (arith, g, h))
  ]

  await_all_failed :
      (ts : List (Task A)) (e : LinkerError) (last : Option (LinkerResult (Option A)))
      → await_all good ts last ≡ failure e
      → NoneAnswered ts
  await_all_failed [] e last h = tt
  await_all_failed (join_error ∷ ts) e last h = await_all_failed ts e last h
  await_all_failed (joined (failure x) ∷ ts) e last h = await_all_failed ts e (keep_error x last) h
  await_all_failed (joined (done none) ∷ ts) e last h = await_all_done ts none e h
  await_all_failed (joined (done (some b)) ∷ ts) e last h = elim (Bool-cases (good b)) [
    | inl g ↦ absurd (ground (arith, g, h))
    | inr g ↦ await_all_done ts (some b) e (ground (arith, g, h))
  ]

  -- An answer is one that a peer gave, or was the last one before.
  await_all_sound :
      (ts : List (Task A)) (last : Option (LinkerResult (Option A))) (a : A)
      → await_all good ts last ≡ done (some a)
      → Answered a ts ⊎ (last ≡ some (done (some a)))
  await_all_sound [] last a h = inr (ground (arith, h))
  await_all_sound (join_error ∷ ts) last a h = ground (arith, await_all_sound ts last a h)
  await_all_sound (joined (failure x) ∷ ts) last a h =
      ground (arith, await_all_sound ts (keep_error x last) a h)
  await_all_sound (joined (done none) ∷ ts) last a h =
      ground (arith, await_all_sound ts (some (done none)) a h)
  await_all_sound (joined (done (some b)) ∷ ts) last a h = elim (Bool-cases (good b)) [
    | inl g ↦ ground (arith, g, h)
    | inr g ↦
        ground (arith, g, h, await_all_sound ts (some (done (some b))) a (ground (arith, g, h)))
  ]

  -- The answer of a query is the first one that passes the test, if there is one; an answer that it
  -- gives was given by a peer; and it fails only if no peer answered.
  pub await_all_lem :
      (ts : List (Task A))
      → ((a : A) → first_good good ts ≡ some a → await_all good ts none ≡ done (some a))
        × ((a : A) → await_all good ts none ≡ done (some a) → Answered a ts)
        × ((e : LinkerError) → await_all good ts none ≡ failure e → NoneAnswered ts)
  await_all_lem ts = (
    await_all_good ts none,
    λ a h. elim (await_all_sound ts none a h) [
      | inl there ↦ there
      | inr e ↦ absurd (ground (arith, e))
    ],
    λ e h. await_all_failed ts e none h,
  )
