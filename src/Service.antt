-- ===== src/Service.antt =====
-- src/service.rs: the parts that `LinkerService::new` puts together. Binding, serving and the wait for
-- the end are I/O.
pub mod Started
use h2hc_linker.Base.{ℕ, String, Bool, true, List, [], Option, none, some, is_some, if◌then◌else◌}
use h2hc_linker.Host.{Fallible, ok, err, with_error}
use h2hc_linker.Error.{LinkerError, internal, LinkerResult, done, failure, ◌>>=◌}
use h2hc_linker.Config.{
  Configuration, SessionStoreConfig, memory, sqlite, auth_enabled, conductor_enabled,
}
use h2hc_linker.Identity.{IdentityEnv, Files, load}
use h2hc_linker.Proxy
use h2hc_linker.Proxy.{AgentProxyManager}
use h2hc_linker.Gateway
use h2hc_linker.Gateway.{GatewayKitsune}
use h2hc_linker.NetworkApi.{KitsuneApi, KitsuneState}
use h2hc_linker.Conductor
use h2hc_linker.Conductor.{AppConn}
use h2hc_linker.OpStore.{TempOpStoreInner}
use h2hc_linker.Query.{PendingDhtResponses}
use h2hc_linker.Auth.Memory
use h2hc_linker.Auth.Memory.{MemoryStoreInner}
use h2hc_linker.Auth.Sqlite.{SqliteSessionStore}
use h2hc_linker.Auth.Store.{AuthStore, with_store}

-- `Arc<dyn SessionStore>`: the two backends.
pub data Backend : Type 0 where
  in_memory : AuthStore MemoryStoreInner → Backend
  in_file : AuthStore SqliteSessionStore → Backend

-- The `AppState` with the seed of the identity.
pub record LinkerService : Type 0 where
  pub configuration : Configuration
  pub agent_proxy : AgentProxyManager
  pub gateway_kitsune : Option GatewayKitsune
  pub kitsune_state : KitsuneState
  pub app_conn : Option AppConn
  pub temp_op_store : Option TempOpStoreInner
  pub dht_query : Option PendingDhtResponses
  pub auth_store : Option Backend
  pub identity : List ℕ

-- The key, the instance that the builder of kitsune2 gives, and the database at a path.
pub record ServiceEnv : Type 0 where
  pub identity_env : IdentityEnv
  pub build_kitsune : Fallible KitsuneApi
  pub open_sqlite : String → Fallible SqliteSessionStore

-- `map_err` to an internal error with a text in front.
abbrev pub or_internal_with : {A : Type 0} → String → Fallible A → LinkerResult A
or_internal_with text (ok a) = done a
or_internal_with text (err e) = failure (internal (with_error text e))

abbrev pub new_app_conn : Option String → Option AppConn
new_app_conn none = none
new_app_conn (some conductor_addr) = some Conductor.new

module _ (env : ServiceEnv) where
  abbrev pub open_store : SessionStoreConfig → LinkerResult Backend
  open_store memory = done (in_memory (with_store Memory.new))
  open_store (sqlite path) = do
    store ← or_internal_with "Failed to open session store: " (env.open_sqlite path)
    done (in_file (with_store store))

  abbrev pub open_auth : Option String → SessionStoreConfig → LinkerResult (Option Backend)
  open_auth none store = done none
  open_auth (some admin_secret) store = do backend ← open_store store; done (some backend)

  -- From the identity on.
  unfoldable pub assemble : Configuration → List ℕ → LinkerResult LinkerService
  assemble config identity = do
    kitsune ← or_internal_with "Failed to create Kitsune2 instance: " env.build_kitsune
    auth_store ← open_auth config.admin_secret config.session_store
    done (record {
      configuration = config;
      agent_proxy = Proxy.new;
      gateway_kitsune = some Gateway.new;
      kitsune_state = record {
        enabled = true;
        bootstrap_url = some config.bootstrap_url;
        relay_url = config.relay_url;
        kitsune = some kitsune;
      };
      app_conn = new_app_conn config.conductor_url;
      temp_op_store = some (record { ops = [] });
      dht_query = some (record { inner = [] });
      auth_store = auth_store;
      identity = identity;
    })

  -- With the files that the identity leaves.
  unfoldable pub new : Configuration → Files → LinkerResult LinkerService × Files
  unfolding assemble
  new config files =
      let loaded = load env.identity_env config.identity files in
      (
        or_internal_with "Failed to load linker identity: " loaded.0 >>= λ key. assemble config key,
        loaded.1,
      )
