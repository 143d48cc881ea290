-- ===== src/Notify.antt =====
-- src/gateway_kitsune.rs, `ProxySpaceHandler`: the notifications that peers send to a space. A
-- message is handled by a task of its own (`tokio::spawn`), so what a notification gives is a list
-- of tasks.
pub mod Delivered
pub mod Routed
use h2hc_linker.Base.{ℕ, String, Bool, List, [], ◌∷◌, ◌++◌, Option, none, some, nat_eq}
use h2hc_linker.Ids.{AgentPubKey, DnaHash, WsSender}
use h2hc_linker.Host.{Host, Fallible, ok, err}
use h2hc_linker.Ws.Messages.{ServerMessage, signal}
use h2hc_linker.Proxy.{AgentProxyManager, TrySend, send_signal}
use h2hc_linker.Query.{PendingResponder, PendingDhtResponses, route_response}

-- The messages that the handler tells apart. A response has its id; the rest of it is handed on.
pub data WireMessage : Type 0 where
  remote_signal_evt : AgentPubKey → List ℕ → WireMessage
  get_res get_links_res count_links_res get_agent_activity_res must_get_agent_activity_res :
      ℕ → List ℕ → WireMessage
  error_res : ℕ → String → WireMessage
  other_message : List ℕ → WireMessage

-- `WireMessage::decode_batch`, `WireMessage::get_msg_id`, `DnaHash::from_k2_space`
pub record Wire : Type 0 where
  pub decode_batch : List ℕ → Fallible (List WireMessage)
  pub get_msg_id : WireMessage → Option ℕ
  pub from_k2_space : ℕ → DnaHash

pub record ProxySpaceHandler : Type 0 where
  pub space_id : ℕ

-- A task that the handler spawns.
pub data Spawned : Type 0 where
  forwards : DnaHash → AgentPubKey → ServerMessage → Spawned
  routes : WireMessage → Spawned

module _ (host : Host) (wire : Wire) where
  unfoldable pub server_msg : DnaHash → AgentPubKey → List ℕ → ServerMessage
  server_msg dna_hash to_agent zome_call_params_serialized =
      signal (host.dna_text dna_hash) (host.agent_text to_agent) "remote" "recv_remote_signal"
        (host.b64_encode zome_call_params_serialized)

  unfoldable pub handle_wire_message : ProxySpaceHandler → WireMessage → List Spawned
  handle_wire_message self (remote_signal_evt to_agent params) =
      let dna_hash = wire.from_k2_space self.space_id in
      forwards dna_hash to_agent (server_msg dna_hash to_agent params) ∷ []
  handle_wire_message self (get_res id r) = routes (get_res id r) ∷ []
  handle_wire_message self (get_links_res id r) = routes (get_links_res id r) ∷ []
  handle_wire_message self (count_links_res id r) = routes (count_links_res id r) ∷ []
  handle_wire_message self (get_agent_activity_res id r) = routes (get_agent_activity_res id r) ∷ []
  handle_wire_message self (must_get_agent_activity_res id r) =
      routes (must_get_agent_activity_res id r) ∷ []
  handle_wire_message self (error_res id e) = routes (error_res id e) ∷ []
  handle_wire_message self (other_message r) = []

  abbrev pub handle_all : ProxySpaceHandler → List WireMessage → List Spawned
  handle_all self [] = []
  handle_all self (msg ∷ messages) = handle_wire_message self msg ++ handle_all self messages

  -- Data that cannot be decoded is dropped; the answer is `Ok` in any case.
  unfoldable pub recv_notify : ProxySpaceHandler → List ℕ → List Spawned
  recv_notify self bytes = elim (wire.decode_batch bytes) [
    | ok messages ↦ handle_all self messages
    | err e ↦ []
  ]

-- What tasks do: the messages that connections get, the answers that queries get, and the queries
-- that still wait.
pub record Outcome : Type 0 where
  pub signals : List (WsSender × ServerMessage)
  pub answers : List (PendingResponder × WireMessage)
  pub pending : PendingDhtResponses

abbrev pub push_some : {A : Type 0} → Option A → List A → List A
push_some none rest = rest
push_some (some a) rest = a ∷ rest

abbrev pub answer_to :
    WireMessage
    → Option PendingResponder
    → List (PendingResponder × WireMessage)
    → List (PendingResponder × WireMessage)
answer_to msg none rest = rest
answer_to msg (some responder) rest = (responder, msg) ∷ rest

module _ (wire : Wire) (try_send : WsSender → ServerMessage → TrySend) (m : AgentProxyManager) where
  -- The tasks in an order in which they run. None changes the registrations.
  unfoldable pub run_tasks : List Spawned → PendingDhtResponses → Outcome
  run_tasks [] p = record { signals = []; answers = []; pending = p }
  run_tasks (forwards dna_hash to_agent msg ∷ tasks) p =
      let rest = run_tasks tasks p in
      record rest {
        signals = push_some (send_signal try_send dna_hash to_agent msg m).1 rest.signals;
      }
  run_tasks (routes msg ∷ tasks) p =
      let ((routed, responder), p') = route_response (wire.get_msg_id msg) p in
      let rest = run_tasks tasks p' in
      record rest { answers = answer_to msg responder rest.answers }
