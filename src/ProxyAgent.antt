-- ===== src/ProxyAgent.antt =====
-- src/proxy_agent.rs: the agent that stands for a browser's in kitsune2. A callback is a number.
use h2hc_linker.Base.{ℕ, List, Option, none, some}
use h2hc_linker.Ids.{AgentPubKey}
use h2hc_linker.Host.{Host, ok, err, with_error}
use h2hc_linker.NetworkApi.{DhtArc, empty}
use h2hc_linker.Proxy.{AgentProxyManager, SignEnv, SignResult, request_agent_info_signature}

-- The agent proxy manager is shared with the gateway, and so an argument of `sign`.
pub record ProxyAgent : Type 0 where
  pub agent_id : List ℕ
  pub agent_pubkey : AgentPubKey
  pub cb : Option ℕ
  pub cur_arc : DhtArc
  pub tgt_arc : DhtArc

unfoldable pub new : Host → AgentPubKey → ProxyAgent
new host agent_pubkey = record {
  agent_id = host.raw_32 agent_pubkey;
  agent_pubkey = agent_pubkey;
  cb = none;
  cur_arc = empty;
  tgt_arc = empty;
}

abbrev pub sign_error : SignResult × AgentProxyManager → SignResult × AgentProxyManager
sign_error (ok signature, m) = (ok signature, m)
sign_error (err e, m) = (err (with_error "Remote signing failed: " e), m)

unfoldable pub sign :
    Host → SignEnv → ProxyAgent → AgentProxyManager → SignResult × AgentProxyManager
unfolding request_agent_info_signature
sign host env agent m = sign_error (request_agent_info_signature host env agent.agent_pubkey m)

unfoldable pub register_cb : ℕ → ProxyAgent → ProxyAgent
register_cb cb agent = record agent { cb = some cb }

-- The callback that is called.
unfoldable pub invoke_cb : ProxyAgent → Option ℕ
invoke_cb agent = agent.cb

unfoldable pub get_cur_storage_arc : ProxyAgent → DhtArc
get_cur_storage_arc agent = agent.cur_arc

unfoldable pub set_cur_storage_arc : DhtArc → ProxyAgent → ProxyAgent
set_cur_storage_arc storage_arc agent = record agent { cur_arc = storage_arc }

unfoldable pub get_tgt_storage_arc : ProxyAgent → DhtArc
get_tgt_storage_arc agent = agent.tgt_arc

unfoldable pub set_tgt_storage_arc_hint : DhtArc → ProxyAgent → ProxyAgent
set_tgt_storage_arc_hint storage_arc agent = record agent { tgt_arc = storage_arc }
