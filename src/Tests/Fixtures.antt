-- ===== src/Tests/Fixtures.antt =====
-- Small concrete values for the tests: two agents, a store, libraries, and a connection.
use h2hc_linker.Base.{
  String, refl, true, false, [], ◌∷◌, none, some, if◌then◌else◌, ◌==◌, string_eq, nat_eq, arith,
  eq_iff,
}
use h2hc_linker.Base.Lists.{length}
use h2hc_linker.Ids.{AgentPubKey, DnaHash, WsSender}
use h2hc_linker.Host.{Host, Fallible, ok, err}
use h2hc_linker.Kitsune.{PeerInfo, Kitsune}
use h2hc_linker.Auth.Types.{AllowedAgent, SessionInfo, dht_read, dht_write}
use h2hc_linker.Auth.Memory.{MemoryStoreInner}
use h2hc_linker.Auth.Memory.Laws.{IsValid}
use h2hc_linker.Auth.Store.{AuthStore}
use h2hc_linker.Proxy.{AgentProxyManager, TrySend, queued, full}
use h2hc_linker.Proxy.Routing.{key_of}
use h2hc_linker.Gateway.{GatewayKitsune}
use h2hc_linker.Gateway.Joined
use h2hc_linker.Gateway.{is_agent_joined}
use h2hc_linker.Ws.Messages.{ServerMessage}
use h2hc_linker.Ws.State.{ConnectionState, AppState, WsEnv}

abbrev pub alice : AllowedAgent
alice = record { agent_pubkey = 1; capabilities = dht_read ∷ dht_write ∷ []; label = none }

abbrev pub bob : AllowedAgent
bob = record { agent_pubkey = 2; capabilities = dht_read ∷ []; label = some "bob" }

abbrev pub alice_session : SessionInfo
alice_session = record {
  agent_pubkey = 1;
  capabilities = alice.capabilities;
  registered_dnas = 5 ∷ [];
}

abbrev pub bob_session : SessionInfo
bob_session = record { agent_pubkey = 2; capabilities = bob.capabilities; registered_dnas = [] }

abbrev pub inner : MemoryStoreInner
inner = record {
  allowed_agents = (1, alice) ∷ (2, bob) ∷ [];
  sessions = ("a", alice_session) ∷ ("b", bob_session) ∷ [];
}

pub inner-IsValid : IsValid inner
inner-IsValid = record {
  agents_unique = (refl, (refl, tt));
  sessions_unique = (refl, (refl, tt));
  sessions_allowed = λ t i h. ground (arith, eq_iff "a" t, eq_iff "b" t);
}

-- Alice is connected twice.
abbrev pub store : AuthStore MemoryStoreInner
store = record { store = inner; ws_senders = (1, 10 ∷ 11 ∷ []) ∷ [] }

abbrev pub parse_agent : String → Fallible AgentPubKey
parse_agent text =
    if text == "alice" then ok 1 else (if text == "bob" then ok 2 else err "no agent")

abbrev pub parse_dna : String → Fallible DnaHash
parse_dna text = if text == "dna" then ok 5 else err "no dna"

-- The agent 1 has the raw key 1, signatures have two bytes, and a check sums a key and a challenge.
abbrev pub host : Host
host = record {
  parse_agent = parse_agent;
  parse_dna = parse_dna;
  agent_text = λ a. if a == 1 then "alice" else "bob";
  dna_text = λ d. "dna";
  agent_of_raw_39 = λ bytes.
      if length bytes == 1 then ok 1 else (if length bytes == 2 then ok 2 else err "no agent");
  raw_32 = λ a. a ∷ [];
  b64_decode = λ text. if text == "sig" then ok (7 ∷ 7 ∷ []) else err "no base64";
  b64_encode = λ bytes. "base64";
  hex_encode = λ bytes. "hex";
  signature_of_slice = λ bytes. if length bytes == 2 then ok bytes else err "no signature";
  verifying_key_of_bytes = λ bytes. ok bytes;
  verify = λ key message signature. length message == 3;
}

abbrev pub peer : PeerInfo
peer = record { agent = 2; url = some 80; is_tombstone = false; storage_arc = λ x. true }

abbrev pub gone : PeerInfo
gone = record { agent = 3; url = some 81; is_tombstone = true; storage_arc = λ x. true }

abbrev pub kitsune : Kitsune
kitsune = record {
  space = λ d. ok d;
  local_agent_join = λ s a. ok tt;
  peer = λ s a. ok (some peer);
  all_peers = λ s. ok (peer ∷ gone ∷ []);
  local_agents = λ s. ok [];
  responsive_agents = λ s l n. ok (peer ∷ gone ∷ peer ∷ []);
  signature_of_slice = λ bytes. ok bytes;
  encode_signal = λ a b c. ok b;
  send_notify = λ s u b. ok tt;
  publish_ops = λ s o u. ok tt;
}

-- Alice and Bob are registered for the DNA 5, at the connections 10 and 20.
abbrev pub proxy : AgentProxyManager
proxy = record {
  registrations = (key_of 5 1, 10) ∷ (key_of 5 2, 20) ∷ [];
  request_counter = 3;
  pending_signs = [];
}

abbrev pub try_send : WsSender → ServerMessage → TrySend
try_send c m = if c == 10 then queued else full

abbrev pub gateway : GatewayKitsune
gateway = record { spaces = (5, 5) ∷ []; agents = ((5, 1), 1) ∷ ((5, 2), 2) ∷ [] }

pub gateway-IsValid : Joined.IsValid gateway
unfolding is_agent_joined
gateway-IsValid = record {
  spaces_unique = (refl, tt);
  agents_unique = (refl, (refl, tt));
  has_space = λ d a h. ground arith;
}

abbrev pub env : WsEnv
env = record {
  host = host;
  kitsune = kitsune;
  try_send = try_send;
  challenge = 1 ∷ 2 ∷ 3 ∷ [];
  token = "c";
}

abbrev pub app : AppState MemoryStoreInner
app = record { auth_store = some store; agent_proxy = proxy; gateway_kitsune = some gateway }

-- Bob's connection, on which one pair is registered.
abbrev pub conn : ConnectionState
conn = record {
  authenticated = true;
  registrations = (5, 2) ∷ [];
  pending_auth_agent = none;
  pending_challenge = none;
  authenticated_agent = some 2;
}
