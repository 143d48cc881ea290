-- ===== src/Exchange.antt =====
-- src/dht_query.rs: the exchange with one peer. The five `send_…_request` functions differ in the
-- response that they accept. A request waits for its channel while the tasks of notifications run, and
-- the clean-up that it has spawned before may come due within the wait or after it.
pub mod Answered
use h2hc_linker.Base.{
  ℕ, String, Bool, true, false, List, [], ◌∷◌, Option, none, some, nat_eq, ◌==◌, if◌then◌else◌,
}
use h2hc_linker.Ids.{WsSender}
use h2hc_linker.Ws.Messages.{ServerMessage}
use h2hc_linker.Proxy.{AgentProxyManager, TrySend}
use h2hc_linker.Host.{Fallible, ok, err, with_error}
use h2hc_linker.Error.{LinkerError, internal, LinkerResult, done, failure}
use h2hc_linker.Query.{PendingResponder, PendingDhtResponses, register, remove_pending}
use h2hc_linker.Notify.{
  Wire, Spawned, run_tasks, WireMessage, get_res, get_links_res, count_links_res,
  get_agent_activity_res, must_get_agent_activity_res, error_res,
}

-- The request and its id, encoded; the channel for the response; the call that sends the request;
-- and the text of a message in an error.
pub record Request : Type 0 where
  pub msg_id : ℕ
  pub encoded : Fallible (List ℕ)
  pub tx : PendingResponder
  pub send_notify : List ℕ → Fallible (Unit {0})
  pub debug_text : WireMessage → String

-- How the wait for the channel ends.
pub data Reply : Type 0 where
  received : WireMessage → Reply
  closed_channel elapsed : Reply

-- What happens while the request waits: a task of a notification runs, or the sleep of the clean-up
-- ends and it runs. The order of the two timeouts is open, since their sleeps start apart.
pub data Moment : Type 0 where
  task : Spawned → Moment
  cleanup_due : Moment

-- A state, and whether the spawned clean-up is still to come.
pub record Exchanged (A : Type 0) : Type 0 where
  pub result : A
  pub pending : PendingDhtResponses
  pub cleanup_owed : Bool

-- The first message that was sent into a channel.
abbrev pub received_at :
    PendingResponder → List (PendingResponder × WireMessage) → Option WireMessage
received_at tx [] = none
received_at tx ((responder, msg) ∷ answers) =
    let later = received_at tx answers in if responder == tx then some msg else later

-- A response that the request does not accept.
abbrev pub other_reply : (WireMessage → String) → WireMessage → LinkerError
other_reply text (error_res id e) = internal (with_error "Remote error: " e)
other_reply text other = internal (with_error "Unexpected response: " (text other))

abbrev pub accept_or : LinkerError → Option (List ℕ) → LinkerResult (Option (List ℕ))
accept_or e none = failure e
accept_or e (some response) = done (some response)

abbrev pub reply_result :
    (WireMessage → Option (List ℕ))
    → (WireMessage → String)
    → Reply
    → LinkerResult (Option (List ℕ))
reply_result pick text (received msg) = accept_or (other_reply text msg) (pick msg)
reply_result pick text closed_channel = failure (internal "Response channel closed")
reply_result pick text elapsed = failure (internal "Request timed out")

-- The task that removes the request after the timeout.
unfoldable pub timeout_cleanup : Request → PendingDhtResponses → PendingDhtResponses
timeout_cleanup r p = remove_pending r.msg_id p

-- The clean-up runs if it is still to come.
abbrev pub settled : {A : Type 0} → Request → Exchanged A → PendingDhtResponses
settled r x = if x.cleanup_owed then timeout_cleanup r x.pending else x.pending

abbrev pub get_response : WireMessage → Option (List ℕ)
get_response (get_res id response) = some response
get_response _ = none

abbrev pub get_links_response : WireMessage → Option (List ℕ)
get_links_response (get_links_res id response) = some response
get_links_response _ = none

abbrev pub get_agent_activity_response : WireMessage → Option (List ℕ)
get_agent_activity_response (get_agent_activity_res id response) = some response
get_agent_activity_response _ = none

abbrev pub must_get_agent_activity_response : WireMessage → Option (List ℕ)
must_get_agent_activity_response (must_get_agent_activity_res id response) = some response
must_get_agent_activity_response _ = none

abbrev pub count_links_response : WireMessage → Option (List ℕ)
count_links_response (count_links_res id response) = some response
count_links_response _ = none

module _ (wire : Wire) (try_send : WsSender → ServerMessage → TrySend) (m : AgentProxyManager) where
  -- `tokio::time::timeout(timeout, rx)`, up to the end of the wait: by a message in the channel, by
  -- the clean-up, which drops the sender and so closes the channel, or by the timeout.
  unfoldable pub wait : Request → List Moment → PendingDhtResponses → Exchanged Reply
  wait r [] p = record { result = elapsed; pending = p; cleanup_owed = true }
  wait r (cleanup_due ∷ moments) p = record {
    result = closed_channel;
    pending = timeout_cleanup r p;
    cleanup_owed = false;
  }
  wait r (task t ∷ moments) p =
      let after = run_tasks wire try_send m (t ∷ []) p in
      let later = wait r moments after.pending in
      elim (received_at r.tx after.answers) [
        | some msg ↦ record { result = received msg; pending = after.pending; cleanup_owed = true }
        | none ↦ later
      ]

  -- The common body. The clean-up is spawned before the request is sent.
  unfoldable pub send_request :
      (WireMessage → Option (List ℕ))
      → Request
      → List Moment
      → PendingDhtResponses
      → Exchanged (LinkerResult (Option (List ℕ)))
  unfolding wait
  send_request pick r moments p = elim r.encoded [
    | err e ↦ record {
      result = failure (internal (with_error "Failed to encode request: " e));
      pending = p;
      cleanup_owed = false;
    }
    | ok encoded ↦
        let registered = register r.msg_id r.tx p in
        elim (r.send_notify encoded) [
          | err e ↦ record {
            result = failure (internal (with_error "Failed to send request: " e));
            pending = registered;
            cleanup_owed = true;
          }
          | ok sent ↦
              let ended = wait r moments registered in
              record {
                result = reply_result pick r.debug_text ended.result;
                pending = ended.pending;
                cleanup_owed = ended.cleanup_owed;
              }
        ]
  ]

  abbrev pub Send : Type 0
  Send = Request → List Moment → PendingDhtResponses → Exchanged (LinkerResult (Option (List ℕ)))

  abbrev pub send_get_request : Send
  send_get_request = send_request get_response

  abbrev pub send_get_links_request : Send
  send_get_links_request = send_request get_links_response

  abbrev pub send_get_agent_activity_request : Send
  send_get_agent_activity_request = send_request get_agent_activity_response

  abbrev pub send_must_get_agent_activity_request : Send
  send_must_get_agent_activity_request = send_request must_get_agent_activity_response

  abbrev pub send_count_links_request : Send
  send_count_links_request = send_request count_links_response
