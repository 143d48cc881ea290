-- ===== src/Notify/Routed.antt =====
-- src/gateway_kitsune.rs and src/dht_query.rs: which queries get the responses of a notification.
use h2hc_linker.Base.{
  ℕ, ◌≡◌, refl, sym, ap, ◌∙◌, inl, inr, Bool, false, List, [], ◌∷◌, Option, none, some, arith,
  Option-cases, Bool-cases, ◌==◌, nat_eq, nat_beq_iff, if◌then◌else◌,
}
use h2hc_linker.Base.Lists.{filter}
use h2hc_linker.Base.Maps.{lookup, remove, lookup-remove}
use h2hc_linker.Ids.{WsSender}
use h2hc_linker.Ws.Messages.{ServerMessage}
use h2hc_linker.Proxy.{AgentProxyManager, TrySend}
use h2hc_linker.Query.{PendingResponder, PendingDhtResponses, route_response}
use h2hc_linker.Notify.{WireMessage, Wire, Spawned, forwards, routes, run_tasks}

module _ (wire : Wire) where
  abbrev pub id_is : ℕ → Option ℕ → Bool
  id_is id none = false
  id_is id (some j) = j == id

  -- The first response of that id among the tasks.
  abbrev pub first_response : ℕ → List Spawned → Option WireMessage
  first_response id [] = none
  first_response id (forwards dna k msg ∷ tasks) = first_response id tasks
  first_response id (routes msg ∷ tasks) =
      let rest = first_response id tasks in
      if id_is id (wire.get_msg_id msg) then some msg else rest

  -- The answers of that id.
  abbrev pub answers_of :
      ℕ → List (PendingResponder × WireMessage) → List (PendingResponder × WireMessage)
  answers_of id answers = filter (λ a. id_is id (wire.get_msg_id a.1)) answers

  abbrev pub expected :
      Option PendingResponder → Option WireMessage → List (PendingResponder × WireMessage)
  expected none first = []
  expected (some responder) none = []
  expected (some responder) (some msg) = (responder, msg) ∷ []

  expected-none : (o : Option PendingResponder) → expected o none ≡ []
  expected-none none = refl
  expected-none (some r) = refl

  abbrev pub remaining : Option WireMessage → Option PendingResponder → Option PendingResponder
  remaining none o = o
  remaining (some msg) o = none

  remaining-none : (first : Option WireMessage) → remaining first none ≡ none
  remaining-none none = refl
  remaining-none (some msg) = refl

  module _ (try_send : WsSender → ServerMessage → TrySend) (m : AgentProxyManager) where
    -- A query that waits gets the first response of its id and no other, and waits no more; a query
    -- whose id has no response gets nothing and still waits.
    pub run_tasks_lem :
        (id : ℕ) (tasks : List Spawned) (p : PendingDhtResponses)
        → let after = run_tasks wire try_send m tasks p in
          (answers_of id after.answers ≡ expected (lookup id p.inner) (first_response id tasks))
          × (lookup id after.pending.inner
              ≡ remaining (first_response id tasks) (lookup id p.inner))
    unfolding run_tasks route_response
    run_tasks_lem id [] p = (sym (expected-none (lookup id p.inner)), refl)
    run_tasks_lem id (forwards dna k msg ∷ tasks) p = run_tasks_lem id tasks p
    run_tasks_lem id (routes msg ∷ tasks) p = elim (Option-cases (wire.get_msg_id msg)) [
      | inl e ↦ rw e (run_tasks_lem id tasks p)
      | inr (j, e) ↦ elim (Bool-cases (j == id)) [
        | inl q ↦
            let (a, b) = run_tasks_lem id tasks (record { inner = remove j p.inner }) in
            let gone : lookup id (remove j p.inner) ≡ none =
              ground (arith, q, lookup-remove j id p.inner) in
            let same : lookup j p.inner ≡ lookup id p.inner =
              ap (λ k. lookup k p.inner) ((nat_beq_iff j id).0 q) in
            let nothing = a ∙ ap (λ o. expected o (first_response id tasks)) gone in
            let cleared =
              b
              ∙ ap (remaining (first_response id tasks)) gone
              ∙ remaining-none (first_response id tasks) in
            elim (Option-cases (lookup id p.inner)) [
              | inl w ↦ rw (e, q, same, w) (nothing, cleared)
              | inr (r, w) ↦
                  rw (e, q, same, w) (rw (e, q) (ap (λ l. (r, msg) ∷ l) nothing), cleared)
            ]
        | inr q ↦
            let (a, b) = run_tasks_lem id tasks (record { inner = remove j p.inner }) in
            let kept : lookup id (remove j p.inner) ≡ lookup id p.inner =
              ground (arith, q, lookup-remove j id p.inner) in
            let answered = a ∙ ap (λ o. expected o (first_response id tasks)) kept in
            let waiting = b ∙ ap (remaining (first_response id tasks)) kept in
            elim (Option-cases (lookup j p.inner)) [
              | inl w ↦ rw (e, q, w) (answered, waiting)
              | inr (r, w) ↦ rw (e, q, w) (rw (e, q) answered, waiting)
            ]
      ]
    ]
