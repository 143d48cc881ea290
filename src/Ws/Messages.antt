-- ===== src/Ws/Messages.antt =====
-- src/routes/websocket.rs: the messages of the protocol, in both directions.
use h2hc_linker.Base.{ℕ, String, List, Option}

-- Byte arrays of a remote signal.
pub record SignedRemoteSignalInput : Type 0 where
  pub target_agent : List ℕ
  pub zome_call_params : List ℕ
  pub signature : List ℕ

-- The constructors have the fields of the source, in its order.
pub data ClientMessage : Type 0 where
  auth : String → ClientMessage
  auth_challenge_response : String → ClientMessage
  register unregister : String → String → ClientMessage
  ping : ClientMessage
  sign_response : String → Option String → Option String → ClientMessage
  send_remote_signal : String → List SignedRemoteSignalInput → ClientMessage

-- The JSON value of `sign_agent_info` is its text.
pub data ServerMessage : Type 0 where
  auth_ok : String → ServerMessage
  auth_challenge : String → ServerMessage
  auth_error : String → ServerMessage
  registered unregistered : String → String → ServerMessage
  signal : String → String → String → String → String → ServerMessage
  pong : ℕ → ServerMessage
  error : String → ServerMessage
  sign_agent_info : String → String → String → ServerMessage
