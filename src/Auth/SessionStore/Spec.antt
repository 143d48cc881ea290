-- ===== src/Auth/SessionStore/Spec.antt =====
-- What src/auth/session_store.rs promises: an abstract store of two partial functions and the
-- operations on it.
use mathlib.Core.Option
use h2hc_linker.Base.{
  String, Bool, not, Option, none, some, [], if◌then◌else◌, ◌==◌, is_some, HashEq, nat_eq,
  string_eq,
}
use h2hc_linker.Base.Lists.{set_insert}
use h2hc_linker.Base.Maps.{keep_if}
use h2hc_linker.Ids.{AgentPubKey, DnaHash}
use h2hc_linker.Auth.Types.{AllowedAgent, SessionInfo, SessionToken}

pub record Abstract : Type 0 where
  pub agent : AgentPubKey → Option AllowedAgent
  pub session : String → Option SessionInfo

abbrev pub update : {K V : Type 0} ⦃e : HashEq K⦄ → K → Option V → (K → Option V) → K → Option V
update k o f j = if k == j then o else f j

-- A session that belongs to another agent.
abbrev pub is_foreign : AgentPubKey → SessionInfo → Bool
is_foreign k i = not (i.agent_pubkey == k)

abbrev pub without_agent : AgentPubKey → (String → Option SessionInfo) → String → Option SessionInfo
without_agent k f t = keep_if (is_foreign k) (f t)

-- The session of the agent `k` with `dna` among its DNAs; any other session as it is.
abbrev pub grant_dna : AgentPubKey → DnaHash → SessionInfo → SessionInfo
grant_dna k dna i =
    if i.agent_pubkey == k
    then record i { registered_dnas = set_insert dna i.registered_dnas }
    else i

abbrev pub spec_add_agent : AllowedAgent → Abstract → Unit {0} × Abstract
spec_add_agent a v = (tt, record v { agent = update a.agent_pubkey (some a) v.agent })

abbrev pub spec_remove_agent : AgentPubKey → Abstract → Bool × Abstract
spec_remove_agent k v = (
  is_some (v.agent k),
  record { agent = update k none v.agent; session = without_agent k v.session },
)

abbrev pub new_session : AllowedAgent → AgentPubKey → SessionInfo
new_session a k = record { agent_pubkey = k; capabilities = a.capabilities; registered_dnas = [] }

abbrev pub spec_created :
    String → AgentPubKey → Abstract → Option AllowedAgent → Option SessionToken × Abstract
spec_created t k v none = (none, v)
spec_created t k v (some a) =
    (some (record { text = t }), record v { session = update t (some (new_session a k)) v.session })

abbrev pub spec_create_session : String → AgentPubKey → Abstract → Option SessionToken × Abstract
spec_create_session t k v = spec_created t k v (v.agent k)

abbrev pub spec_revoke_session : String → Abstract → Bool × Abstract
spec_revoke_session t v = (is_some (v.session t), record v { session = update t none v.session })

abbrev pub spec_register_dna : AgentPubKey → DnaHash → Abstract → Unit {0} × Abstract
spec_register_dna k dna v =
    (tt, record v { session = λ t. Option.map (grant_dna k dna) (v.session t) })

-- What remains after the sessions of `k` are revoked.
abbrev pub spec_revoke_sessions : AgentPubKey → Abstract → Abstract
spec_revoke_sessions k v = record v { session = without_agent k v.session }
