-- ===== src/Service/Started.antt =====
-- src/service.rs with src/config.rs: the service that an environment starts.
use h2hc_linker.Base.{
  ℕ, String, ◌≡◌, refl, sym, ap, subst, ◌∙◌, true, List, Option, none, some, is_some, arith,
}
use h2hc_linker.Host.{ok}
use h2hc_linker.Error.{LinkerResult, done, failure, ◌>>=◌}
use h2hc_linker.Config.{
  ConfigEnv, Configuration, SessionStoreConfig, from_env, auth_enabled, conductor_enabled,
}
use h2hc_linker.Config.Read.{Registered, from_env_lem}
use h2hc_linker.Identity.{Files, load}
use h2hc_linker.NetworkApi.{get_network_status}
use h2hc_linker.Service.{
  ServiceEnv, LinkerService, Backend, or_internal_with, open_store, open_auth, new_app_conn,
  assemble, new,
}

bind-done :
    {A B : Type 0} (m : LinkerResult A) (f : A → LinkerResult B) (b : B)
    → (m >>= f) ≡ done b
    → (a : A) × (m ≡ done a) × (f a ≡ done b)
bind-done (done a) f b h = (a, refl, h)
bind-done (failure e) f b h = absurd (ground (arith, h))

-- The parts of a service that started with a configuration.
pub record Built (config : Configuration) (s : LinkerService) : Type 0 where
  pub kept : s.configuration ≡ config
  pub auth : is_some s.auth_store ≡ is_some config.admin_secret
  pub conductor : is_some s.app_conn ≡ is_some config.conductor_url
  pub gateway : is_some s.gateway_kitsune ≡ true
  pub queries : is_some s.dht_query ≡ true
  pub ops : is_some s.temp_op_store ≡ true
  pub enabled : s.kitsune_state.enabled ≡ true
  pub network : is_some s.kitsune_state.kitsune ≡ true

-- What a service shows of the environment that it was started with.
abbrev pub Shown : ConfigEnv → LinkerService → Type 0
Shown config_env s =
    (config_env.var "H2HC_LINKER_BOOTSTRAP_URL" ≡ some s.configuration.bootstrap_url)
    × (is_some s.auth_store ≡ is_some (config_env.var "H2HC_LINKER_ADMIN_SECRET"))
    × (is_some s.app_conn ≡ is_some (config_env.var "H2HC_LINKER_CONDUCTOR_URL"))
    × Registered config_env (config_env.var "H2HC_LINKER_JOINING_SERVICE_URL")
        (config_env.var "H2HC_LINKER_PUBLIC_URL") s.configuration.registration
    × (is_some s.gateway_kitsune ≡ true)
    × (is_some s.dht_query ≡ true)
    × (is_some s.temp_op_store ≡ true)
    × ((get_network_status s.kitsune_state).connected ≡ true)

done_injective : {A : Type 0} (a b : A) → done a ≡ done b → a ≡ b
done_injective a b h = ap (λ r. elim r [ done c ↦ c | failure e ↦ a ]) h

app_conn_lem : (url : Option String) → is_some (new_app_conn url) ≡ is_some url
app_conn_lem none = refl
app_conn_lem (some url) = refl

module _ (env : ServiceEnv) where
  open_auth_lem :
      (secret : Option String) (store : SessionStoreConfig) (o : Option Backend)
      → open_auth env secret store ≡ done o
      → is_some o ≡ is_some secret
  open_auth_lem none store o h = ground (arith, h)
  open_auth_lem (some secret) store o h =
      let (backend, a, e) = bind-done (open_store env store) _ o h in ground (arith, e)

  assemble_lem :
      (config : Configuration) (key : List ℕ) (s : LinkerService)
      → assemble env config key ≡ done s
      → Built config s
  unfolding assemble
  assemble_lem config key s h =
      let (kitsune, a, h1) =
        bind-done (or_internal_with "Failed to create Kitsune2 instance: " env.build_kitsune) _ s
          h in
      let (store, b, h2) =
        bind-done (open_auth env config.admin_secret config.session_store) _ s h1 in
      subst (λ x. Built config x) (done_injective _ s h2)
        record {
          kept = refl;
          auth = open_auth_lem config.admin_secret config.session_store store b;
          conductor = app_conn_lem config.conductor_url;
          gateway = refl;
          queries = refl;
          ops = refl;
          enabled = refl;
          network = refl;
        }

  -- A service that starts with the configuration of an environment has the bootstrap URL of the
  -- environment; it asks for authentication, and has a connection to a conductor, exactly if the
  -- admin secret and the conductor's URL are set; it is registered for a joining service exactly if
  -- both URLs of that are set, which then parse with schemes that they may have; and it is connected
  -- to the network, with a gateway, the queries and the op store.
  pub started_lem :
      (config_env : ConfigEnv) (config : Configuration) (files : Files) (s : LinkerService)
      → from_env config_env ≡ ok config
      → (new env config files).0 ≡ done s
      → Shown config_env s
  unfolding new auth_enabled conductor_enabled get_network_status
  started_lem config_env config files s read started =
      let (key, a, h) =
        bind-done
          (or_internal_with "Failed to load linker identity: "
            (load env.identity_env config.identity files).0)
          (λ key. assemble env config key) s started in
      let built = assemble_lem config key s h in
      let (url, auth, conductor, registration) = from_env_lem config_env config read in
      (
        url ∙ ap (λ c. some c.bootstrap_url) (sym built.kept),
        built.auth ∙ auth,
        built.conductor ∙ conductor,
        subst
            (λ c.
              Registered config_env (config_env.var "H2HC_LINKER_JOINING_SERVICE_URL")
                (config_env.var "H2HC_LINKER_PUBLIC_URL") c.registration)
            (sym built.kept) registration,
        built.gateway,
        built.queries,
        built.ops,
        rw (built.enabled, built.network) refl,
      )
