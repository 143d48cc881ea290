-- ===== src/Tests/Queries.antt =====
-- The theorems on the queries to peers.
use h2hc_linker.Base.{ℕ, ◌≡◌, refl, List, [], ◌∷◌, none, some, ltb, nat_eq}
use h2hc_linker.Error.{internal, done, failure}
use h2hc_linker.Query.{Task, joined, join_error, await_all, PendingDhtResponses}
use h2hc_linker.Query.Answers.{await_all_lem}

-- The second answer is not the first, but the first that passes the test.
abbrev tasks : List (Task ℕ)
tasks =
    joined (failure (internal "no"))
    ∷ joined (done (some 1))
    ∷ join_error
    ∷ joined (done (some 5))
    ∷ []

await_all_lem_example : await_all (ltb 2) tasks none ≡ done (some 5)
await_all_lem_example = (await_all_lem (ltb 2) tasks).0 5 refl

abbrev pending : PendingDhtResponses
pending = record { inner = (4, 40) ∷ [] }
