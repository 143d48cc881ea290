-- ===== src/Tests/Exchange.antt =====
-- The theorems on the exchange with a peer: a request that is answered, and then answered again.
use h2hc_linker.Base.{ℕ, ◌≡◌, ◌≢◌, refl, List, [], ◌∷◌, none, nat_eq}
use h2hc_linker.Base.Maps.{lookup}
use h2hc_linker.Host.{ok}
use h2hc_linker.Error.{failure, internal}
use h2hc_linker.Query.{PendingDhtResponses}
use h2hc_linker.Notify.{Spawned}
use h2hc_linker.Exchange.{
  Request, Moment, task, cleanup_due, get_response, wait, send_request, send_get_request, settled,
}
use h2hc_linker.Exchange.Answered.{Unanswered, pending-send_request}
use h2hc_linker.Tests.Notify.{wire, tasks}
use h2hc_linker.Tests.Fixtures.{proxy, try_send}

abbrev request : Request
request = record {
  msg_id = 7;
  encoded = ok (1 ∷ []);
  tx = 70;
  send_notify = λ bytes. ok tt;
  debug_text = λ msg. "message";
}

abbrev others : PendingDhtResponses
others = record { inner = (8, 80) ∷ [] }

-- The response comes, and then again.
abbrev moments : List Moment
moments = each tasks
  where
    each : List Spawned → List Moment
    each [] = []
    each (t ∷ ts) = task t ∷ each ts

-- The clean-up comes due first.
closed_example :
    (send_get_request wire try_send proxy request (cleanup_due ∷ moments) others).result
    ≡ failure (internal "Response channel closed")
unfolding send_request wait
closed_example = refl

pending-send_request_example :
    (lookup 7 (settled request (send_get_request wire try_send proxy request moments others)).inner
      ≡ none)
    × ((j : ℕ)
        → 7 ≢ j
        → Unanswered wire j moments
        → lookup j
            (settled request (send_get_request wire try_send proxy request moments others)).inner
          ≡ lookup j others.inner)
pending-send_request_example =
    pending-send_request wire try_send proxy get_response request moments others refl
