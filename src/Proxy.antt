-- ===== src/Proxy.antt =====
-- src/agent_proxy.rs: which agents are registered for which DNAs at which connection, the routing of
-- signals to them, and the pending requests for signatures.
pub mod Routing
pub mod Signing
use h2hc_linker.Base.{
  ℕ, ◌+◌, ◌%◌, String, ◌≡◌, ◌↔◌, Bool, true, false, not, ◌&&◌, List, [], ◌∷◌, Option, none, some,
  arith, if◌then◌else◌, ◌==◌, HashEq, nat_eq, nat_beq_iff, string_eq,
}
use h2hc_linker.Base.Lists.{length}
use h2hc_linker.Base.Maps.{Map, lookup, has_key, insert, remove, retain}
use h2hc_linker.Ids.{AgentPubKey, DnaHash, WsSender}
use h2hc_linker.Host.{Host, Fallible, ok, err, with_error}
use h2hc_linker.Ws.Messages.{ServerMessage, sign_agent_info}

pub record AgentRegistration : Type 0 where
  pub dna_hash : DnaHash
  pub agent_pubkey : AgentPubKey

abbrev pub registration_beq : AgentRegistration → AgentRegistration → Bool
registration_beq a b = a.dna_hash == b.dna_hash && a.agent_pubkey == b.agent_pubkey

pub registration_beq_iff : (a b : AgentRegistration) → (registration_beq a b ≡ true) ↔ (a ≡ b)
registration_beq_iff a b = (λ h. ground arith, λ h. ground arith)

instance abbrev pub registration_eq : HashEq AgentRegistration
registration_eq = record { same = registration_beq; same_iff = registration_beq_iff }

-- A signature's bytes, or the error that the browser sent.
abbrev pub SignResult : Type 0
SignResult = Fallible (List ℕ)

-- The sender of a oneshot channel, by a number of its own.
abbrev pub PendingSign : Type 0
PendingSign = ℕ

-- `sign_timeout` only reaches the timer and the text of an error.
pub record AgentProxyManager : Type 0 where
  pub registrations : Map AgentRegistration WsSender
  pub request_counter : ℕ  -- u64
  pub pending_signs : Map String PendingSign

unfoldable pub new : AgentProxyManager
new = record { registrations = []; request_counter = 0; pending_signs = [] }

unfoldable pub register : DnaHash → AgentPubKey → WsSender → AgentProxyManager → AgentProxyManager
register dna_hash agent_pubkey sender m =
    let key : AgentRegistration = record { dna_hash = dna_hash; agent_pubkey = agent_pubkey } in
    record m { registrations = insert key sender m.registrations }

unfoldable pub unregister : DnaHash → AgentPubKey → AgentProxyManager → AgentProxyManager
unregister dna_hash agent_pubkey m =
    let key : AgentRegistration = record { dna_hash = dna_hash; agent_pubkey = agent_pubkey } in
    record m { registrations = remove key m.registrations }

unfoldable pub unregister_all : WsSender → AgentProxyManager → AgentProxyManager
unregister_all sender m = record m {
  registrations = retain (λ s. not (s == sender)) m.registrations;
}

-- The answer of `try_send`.
pub data TrySend : Type 0 where
  queued full closed : TrySend

abbrev pub is_queued : TrySend → Bool
is_queued queued = true
is_queued full = false
is_queued closed = false

-- With the message that was handed to a channel, if any was.
unfoldable pub send_signal :
    (WsSender → ServerMessage → TrySend)
    → DnaHash
    → AgentPubKey
    → ServerMessage
    → AgentProxyManager
    → Bool × Option (WsSender × ServerMessage)
send_signal try_send dna_hash agent_pubkey message m =
    let key : AgentRegistration = record { dna_hash = dna_hash; agent_pubkey = agent_pubkey } in
    elim (lookup key m.registrations) [
      | none ↦ (false, none)
      | some sender ↦ elim (try_send sender message) [
        | queued ↦ (true, some (sender, message))
        | full ↦ (false, none)
        | closed ↦ (false, none)
      ]
    ]

unfoldable pub registration_count : AgentProxyManager → ℕ
registration_count m = length m.registrations

unfoldable pub is_registered : DnaHash → AgentPubKey → AgentProxyManager → Bool
is_registered dna_hash agent_pubkey m =
    let key : AgentRegistration = record { dna_hash = dna_hash; agent_pubkey = agent_pubkey } in
    has_key key m.registrations

-- The loop of `find_sender_for_agent`: the first entry of the agent, whatever its DNA.
abbrev pub first_sender : AgentPubKey → Map AgentRegistration WsSender → Option WsSender
first_sender agent_pubkey [] = none
first_sender agent_pubkey ((key, sender) ∷ rest) =
    if key.agent_pubkey == agent_pubkey then some sender else first_sender agent_pubkey rest

unfoldable pub find_sender_for_agent : AgentPubKey → AgentProxyManager → Option WsSender
find_sender_for_agent agent_pubkey m = first_sender agent_pubkey m.registrations

-- How the wait for the answer of the browser ends.
pub data Wait : Type 0 where
  answered : SignResult → Wait
  cancelled : Wait
  timed_out : Wait

-- What `request_agent_info_signature` meets outside this file: the clock, the text of an id
-- (`format!`), the texts of an agent and of the timeout, the JSON of the agent info, the oneshot
-- channel, the send to the connection's channel, what other tasks do while it waits, and how the
-- wait ends.
pub record SignEnv : Type 0 where
  pub format_id : ℕ → ℕ → String
  pub now_millis : ℕ
  pub agent_debug : AgentPubKey → String
  pub sign_timeout : String
  pub agent_info : Fallible String
  pub channel : PendingSign
  pub send : WsSender → ServerMessage → Fallible (Unit {0})
  pub others : AgentProxyManager → AgentProxyManager
  pub wait : Wait

-- `fetch_add` on the counter wraps at 64 bits.
abbrev pub u64_mod : ℕ
u64_mod = 18446744073709551616

abbrev pub forget_pending : String → AgentProxyManager → AgentProxyManager
forget_pending request_id m = record m { pending_signs = remove request_id m.pending_signs }

-- The id is taken and the responder stored.
unfoldable pub open_request : SignEnv → AgentProxyManager → String × AgentProxyManager
open_request env m =
    let request_id = env.format_id m.request_counter env.now_millis in
    (
      request_id,
      record m {
        request_counter = (m.request_counter + 1) % u64_mod;
        pending_signs = insert request_id env.channel m.pending_signs;
      },
    )

abbrev pub answer_of : String → Wait → SignResult
answer_of sign_timeout (answered result) = result
answer_of sign_timeout cancelled = err "Sign request cancelled"
answer_of sign_timeout timed_out = err (with_error "Sign request timed out after " sign_timeout)

abbrev not_registered : String → String
not_registered agent =
    with_error "Agent " (with_error agent " is not registered - cannot request signature")

unfoldable pub request_agent_info_signature :
    Host → SignEnv → AgentPubKey → AgentProxyManager → SignResult × AgentProxyManager
unfolding find_sender_for_agent open_request
request_agent_info_signature host env agent_pubkey m = elim (find_sender_for_agent agent_pubkey m) [
  | none ↦ (err (not_registered (env.agent_debug agent_pubkey)), m)
  | some sender ↦
      let request_id = (open_request env m).0 in
      let opened = (open_request env m).1 in
      elim env.agent_info [
        | err e ↦ (err (with_error "Failed to serialize agent info: " e), opened)
        | ok agent_info_value ↦
            elim (env.send sender
              (sign_agent_info request_id (host.agent_text agent_pubkey) agent_info_value)) [
                | err e ↦ (
                  err (with_error "Failed to send sign request: " e),
                  forget_pending request_id opened,
                )
                | ok _ ↦ (
                  answer_of env.sign_timeout env.wait,
                  forget_pending request_id (env.others opened),
                )
              ]
      ]
]

-- The delivery of a response: the oneshot channel that gets the result, if the request is pending.
unfoldable pub deliver_signature :
    String → SignResult → AgentProxyManager → Option (PendingSign × SignResult) × AgentProxyManager
deliver_signature request_id result m = elim (lookup request_id m.pending_signs) [
  | none ↦ (none, forget_pending request_id m)
  | some sender ↦ (some (sender, result), forget_pending request_id m)
]

unfoldable pub pending_sign_count : AgentProxyManager → ℕ
pending_sign_count m = length m.pending_signs
