-- ===== src/Exchange/Answered.antt =====
-- src/dht_query.rs and src/gateway_kitsune.rs: how a request to one peer ends, and what is left of
-- it.
use h2hc_linker.Base.{
  ℕ, ◌≡◌, ◌≢◌, refl, ◌∙◌, inl, inr, false, List, [], ◌∷◌, Option, none, some, arith, nat_eq,
  nat_beq_iff, Option-cases, Bool-cases,
}
use h2hc_linker.Base.Maps.{Map, lookup, insert, remove, lookup-insert, lookup-remove}
use h2hc_linker.Ids.{WsSender}
use h2hc_linker.Host.{Fallible-cases}
use h2hc_linker.Ws.Messages.{ServerMessage}
use h2hc_linker.Proxy.{AgentProxyManager, TrySend}
use h2hc_linker.Query.{
  PendingResponder, PendingDhtResponses, register, remove_pending, route_response,
}
use h2hc_linker.Notify.{WireMessage, Wire, Spawned, forwards, routes, run_tasks}
use h2hc_linker.Notify.Routed.{first_response}
use h2hc_linker.Exchange.{
  Request, Reply, received, closed_channel, elapsed, Moment, task, cleanup_due, received_at,
  timeout_cleanup, settled, wait, send_request,
}

module _ (wire : Wire) where
  -- The end of a wait in terms of the messages alone: the first response of the id that is there
  -- before the clean-up comes due; or the clean-up, if it comes due without one; or the timeout.
  abbrev pub ending : ℕ → List Moment → Reply
  ending id [] = elapsed
  ending id (cleanup_due ∷ moments) = closed_channel
  ending id (task t ∷ moments) =
      let later = ending id moments in
      elim (first_response wire id (t ∷ [])) [ some msg ↦ received msg | none ↦ later ]

  -- No task of the wait has a response of the id.
  abbrev pub Unanswered : ℕ → List Moment → Type 0
  Unanswered j [] = Unit
  Unanswered j (cleanup_due ∷ moments) = Unanswered j moments
  Unanswered j (task t ∷ moments) = (first_response wire j (t ∷ []) ≡ none) × Unanswered j moments

-- The channel of the request is that of its id and of no other.
abbrev Alone : ℕ → PendingResponder → PendingDhtResponses → Type 0
Alone id tx p = (lookup id p.inner ≡ some tx) × ((j : ℕ) → lookup j p.inner ≡ some tx → j ≡ id)

module _ (wire : Wire) (try_send : WsSender → ServerMessage → TrySend) (m : AgentProxyManager) where
  task_other :
      (t : Spawned) (p : PendingDhtResponses) (j : ℕ)
      → first_response wire j (t ∷ []) ≡ none
      → lookup j (run_tasks wire try_send m (t ∷ []) p).pending.inner ≡ lookup j p.inner
  unfolding run_tasks route_response
  task_other (forwards dna k msg) p j h = refl
  task_other (routes msg) p j h = elim (Option-cases (wire.get_msg_id msg)) [
    | inl e ↦ rw e refl
    | inr (i, e) ↦ ground (arith, e, h, lookup-remove i j p.inner)
  ]

  wait-other :
      (r : Request) (moments : List Moment) (p : PendingDhtResponses) (j : ℕ)
      → r.msg_id ≢ j
      → Unanswered wire j moments
      → lookup j (wait wire try_send m r moments p).pending.inner ≡ lookup j p.inner
  unfolding wait timeout_cleanup remove_pending
  wait-other r [] p j ne u = refl
  wait-other r (cleanup_due ∷ moments) p j ne u =
      ground (arith, ne, lookup-remove r.msg_id j p.inner, nat_beq_iff r.msg_id j)
  wait-other r (task t ∷ moments) p j ne u =
      let after = run_tasks wire try_send m (t ∷ []) p in
      let here = task_other t p j u.0 in
      let later = wait-other r moments after.pending j ne u.1 in
      elim (Option-cases (received_at r.tx after.answers)) [
        | inl f ↦ rw (wait, f) (later ∙ here)
        | inr (msg, f) ↦ rw (wait, f) here
      ]

  wait-cleaned :
      (r : Request) (moments : List Moment) (p : PendingDhtResponses)
      → let x = wait wire try_send m r moments p in
        x.cleanup_owed ≡ false → lookup r.msg_id x.pending.inner ≡ none
  unfolding wait timeout_cleanup remove_pending
  wait-cleaned r [] p h = absurd (ground (arith, h))
  wait-cleaned r (cleanup_due ∷ moments) p h =
      ground (arith, lookup-remove r.msg_id r.msg_id p.inner, nat_beq_iff r.msg_id r.msg_id)
  wait-cleaned r (task t ∷ moments) p h =
      let after = run_tasks wire try_send m (t ∷ []) p in
      let later = wait-cleaned r moments after.pending in
      elim (Option-cases (received_at r.tx after.answers)) [
        | inl f ↦ rw (wait, f) (later (ground (arith, h, f)))
        | inr (msg, f) ↦ absurd (ground (arith, h, f))
      ]

  -- Once a request of a new id has ended, in whatever way, and the clean-up that it has spawned has
  -- run, within the wait or after it, the request is not pending, and every other query to which no
  -- task of the wait had a response is pending exactly as before.
  pub pending-send_request :
      (pick : WireMessage → Option (List ℕ)) (r : Request) (moments : List Moment)
      (p : PendingDhtResponses)
      → lookup r.msg_id p.inner ≡ none
      → let left = settled r (send_request wire try_send m pick r moments p) in
        (lookup r.msg_id left.inner ≡ none)
        × ((j : ℕ)
            → r.msg_id ≢ j
            → Unanswered wire j moments
            → lookup j left.inner ≡ lookup j p.inner)
  unfolding send_request register timeout_cleanup remove_pending
  pending-send_request pick r moments p new = elim (Fallible-cases r.encoded) [
    | inr (x, e) ↦ rw (e, send_request) (new, λ j ne u. refl)
    | inl (bytes, e) ↦
        let registered : PendingDhtResponses = record { inner = insert r.msg_id r.tx p.inner } in
        let gone = λ (q : Map ℕ PendingResponder). lookup-remove r.msg_id r.msg_id q in
        let other : (j : ℕ) → r.msg_id ≢ j → lookup j registered.inner ≡ lookup j p.inner = λ j ne.
          ground (arith, ne, lookup-insert r.msg_id j r.tx p.inner, nat_beq_iff r.msg_id j) in
        let aside : (j : ℕ) (q : Map ℕ PendingResponder)
            → r.msg_id ≢ j
            → lookup j (remove r.msg_id q) ≡ lookup j q =
          λ j q ne. ground (arith, ne, lookup-remove r.msg_id j q, nat_beq_iff r.msg_id j) in
        elim (Fallible-cases (r.send_notify bytes)) [
          | inr (x, s) ↦
              rw (e, send_request, s)
                (
                  ground (arith, gone registered.inner, nat_beq_iff r.msg_id r.msg_id),
                  λ j ne u. aside j registered.inner ne ∙ other j ne,
                )
          | inl (sent, s) ↦
              let x = wait wire try_send m r moments registered in
              elim (Bool-cases x.cleanup_owed) [
                | inl o ↦
                    rw (e, send_request, s, o)
                      (
                        ground (arith, gone x.pending.inner, nat_beq_iff r.msg_id r.msg_id),
                        λ j ne u.
                            aside j x.pending.inner ne
                            ∙ wait-other r moments registered j ne u
                            ∙ other j ne,
                      )
                | inr o ↦
                    rw (e, send_request, s, o)
                      (
                        wait-cleaned r moments registered o,
                        λ j ne u. wait-other r moments registered j ne u ∙ other j ne,
                      )
              ]
        ]
  ]
