-- ===== src/Ws/State.antt =====
-- src/routes/websocket.rs: the state of a connection, and what a handler of a client's message takes
-- and returns: the connection's state, the parts of the `AppState` that it reaches, the response.
use h2hc_linker.Base.{ℕ, String, Bool, false, List, [], Option, none}
use h2hc_linker.Ids.{AgentPubKey, DnaHash, WsSender}
use h2hc_linker.Host.{Host}
use h2hc_linker.Kitsune.{Kitsune}
use h2hc_linker.Auth.Store.{AuthStore}
use h2hc_linker.Proxy.{AgentProxyManager, TrySend}
use h2hc_linker.Gateway.{GatewayKitsune}
use h2hc_linker.Ws.Messages.{ServerMessage}

abbrev pub Pair : Type 0
Pair = DnaHash × AgentPubKey

-- `last_activity` is set by the loop around the handlers, and read by no handler.
pub record ConnectionState : Type 0 where
  pub authenticated : Bool
  pub registrations : List Pair
  pub pending_auth_agent : Option AgentPubKey
  pub pending_challenge : Option (List ℕ)
  pub authenticated_agent : Option AgentPubKey

unfoldable pub default : ConnectionState
default = record {
  authenticated = false;
  registrations = [];
  pending_auth_agent = none;
  pending_challenge = none;
  authenticated_agent = none;
}

-- The parts of the `AppState` that the handlers reach.
pub record AppState (S : Type 0) : Type 0 where
  pub auth_store : Option (AuthStore S)
  pub agent_proxy : AgentProxyManager
  pub gateway_kitsune : Option GatewayKitsune

-- What one call meets outside: the libraries, the channels, and the values drawn at random.
pub record WsEnv : Type 0 where
  pub host : Host
  pub kitsune : Kitsune
  pub try_send : WsSender → ServerMessage → TrySend
  pub challenge : List ℕ
  pub token : String

-- `Some`, `None`, or a panic of the handler.
pub data Answer : Type 0 where
  message : ServerMessage → Answer
  silent : Answer
  panic : Answer

pub record Reply (S : Type 0) : Type 0 where
  pub response : Answer
  pub conn : ConnectionState
  pub app : AppState S

module _ {S : Type 0} where
  abbrev pub answer : ServerMessage → ConnectionState → AppState S → Reply S
  answer m conn app = record { response = message m; conn = conn; app = app }
