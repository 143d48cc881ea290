-- ===== src/Config/Read.antt =====
-- src/config.rs: what a configuration that was read says of the environment.
use h2hc_linker.Base.{
  String, ◌≡◌, refl, sym, ap, subst, ◌∙◌, true, ◌||◌, Option, none, some, is_some, arith, ◌==◌,
  string_eq,
}
use h2hc_linker.Host.{Fallible, ok, err, ◌>>=◌}
use h2hc_linker.Registration.{RegistrationConfig}
use h2hc_linker.Config.{
  ConfigEnv, Configuration, default, from_env, read_conductor_url, read_bootstrap_url, read_number,
  read_report, read_registration, read_session_store, check_joining_scheme, check_public_scheme,
  scheme_of, parsed_or, auth_enabled, conductor_enabled,
}

pub bind-ok :
    {A B : Type 0} (m : Fallible A) (f : A → Fallible B) (b : B)
    → (m >>= f) ≡ ok b
    → (a : A) × (m ≡ ok a) × (f a ≡ ok b)
bind-ok (ok a) f b h = (a, refl, h)
bind-ok (err e) f b h = absurd (ground (arith, h))

ok_injective : {A : Type 0} (a b : A) → ok a ≡ ok b → a ≡ b
ok_injective a b h = ap (λ r. elim r [ ok c ↦ c | err e ↦ a ]) h

-- A registration that was read stands for two URLs with schemes that it may have.
abbrev pub IsUsable : ConfigEnv → RegistrationConfig → Type 0
IsUsable env r =
    ((s : String) × (env.url_scheme r.joining_service_url ≡ ok s)
      × ((s == "http") || (s == "https") ≡ true))
    × ((s : String) × (env.url_scheme r.public_url ≡ ok s)
        × ((s == "ws") || (s == "wss") || (s == "http") || (s == "https") ≡ true))

abbrev pub Registered :
    ConfigEnv → Option String → Option String → Option RegistrationConfig → Type 0
Registered env none none r = r ≡ none
Registered env (some js) (some public) r =
    (c : RegistrationConfig) × (r ≡ some c)
    × (c.joining_service_url ≡ js)
    × (c.public_url ≡ public)
    × IsUsable env c
Registered env _ _ r = ⊥

module _ (env : ConfigEnv) where
  scheme_of-ok : (text url s : String) → scheme_of env text url ≡ ok s → env.url_scheme url ≡ ok s
  scheme_of-ok text url s h = ground (arith, h)

  read_registration_lem :
      (js public : Option String) (r : Option RegistrationConfig)
      → read_registration env js public ≡ ok r
      → Registered env js public r
  unfolding read_registration
  read_registration_lem none none r h = ground (arith, h)
  read_registration_lem (some js) none r h = absurd (ground (arith, h))
  read_registration_lem none (some public) r h = absurd (ground (arith, h))
  read_registration_lem (some js) (some public) r h =
      let (s, a, h1) = bind-ok (scheme_of env _ js) _ r h in
      let (u, b, h2) = bind-ok (check_joining_scheme env s) _ r h1 in
      let (t, c, h3) = bind-ok (scheme_of env _ public) _ r h2 in
      let (v, d, h4) = bind-ok (check_public_scheme env t) _ r h3 in
      let read : RegistrationConfig = record {
        joining_service_url = js;
        invite_token = env.var "H2HC_LINKER_INVITE_TOKEN";
        public_url = public;
        initial_heartbeat_interval_secs =
            parsed_or 200 env.parse_number (env.var "H2HC_LINKER_HEARTBEAT_INTERVAL_SECS");
      } in
      (
        read,
        ground (arith, h4),
        refl,
        refl,
        (
          (s, scheme_of-ok _ js s a, ground (arith, b)),
          (t, scheme_of-ok _ public t c, ground (arith, d)),
        ),
      )

  bootstrap_was_set :
      (o : Option String) (url : String) → read_bootstrap_url env o ≡ ok url → o ≡ some url
  bootstrap_was_set o url h = ground (arith, h)

  conductor_as_set :
      (o conductor : Option String)
      → read_conductor_url env o ≡ ok conductor
      → is_some conductor ≡ is_some o
  conductor_as_set o conductor h = ground (arith, h)

  -- A configuration that was read has the bootstrap URL of the environment, which is set then; it
  -- turns authentication and the conductor on exactly if the admin secret and the conductor's URL
  -- are set; and it has a registration exactly if both URLs of it are set (one alone is refused),
  -- with these, and each of them parses as a URL with a scheme that it may have.
  pub from_env_lem :
      (c : Configuration)
      → from_env env ≡ ok c
      → (env.var "H2HC_LINKER_BOOTSTRAP_URL" ≡ some c.bootstrap_url)
        × (auth_enabled c ≡ is_some (env.var "H2HC_LINKER_ADMIN_SECRET"))
        × (conductor_enabled c ≡ is_some (env.var "H2HC_LINKER_CONDUCTOR_URL"))
        × Registered env
            (env.var "H2HC_LINKER_JOINING_SERVICE_URL")
            (env.var "H2HC_LINKER_PUBLIC_URL")
            c.registration
  unfolding from_env auth_enabled conductor_enabled
  from_env_lem c h =
      let (conductor, a, h1) =
        bind-ok (read_conductor_url env (env.var "H2HC_LINKER_CONDUCTOR_URL")) _ c h in
      let (bootstrap, b, h2) =
        bind-ok (read_bootstrap_url env (env.var "H2HC_LINKER_BOOTSTRAP_URL")) _ c h1 in
      let (limit, d, h3) =
        bind-ok
          (read_number env default.payload_limit_bytes (env.var "H2HC_LINKER_PAYLOAD_LIMIT_BYTES"))
          _ c h2 in
      let (timeout, e, h4) =
        bind-ok
          (read_number env default.zome_call_timeout (env.var "H2HC_LINKER_ZOME_CALL_TIMEOUT_MS")) _
          c h3 in
      let (report, f, h5) = bind-ok (read_report env (env.var "H2HC_LINKER_REPORT")) _ c h4 in
      let (registration, g, h6) =
        bind-ok
          (read_registration env (env.var "H2HC_LINKER_JOINING_SERVICE_URL")
            (env.var "H2HC_LINKER_PUBLIC_URL"))
          _ c h5 in
      let (store, i, h7) =
        bind-ok (read_session_store env (env.var "H2HC_LINKER_SESSION_STORE")) _ c h6 in
      let made = ok_injective _ c h7 in
      (
        bootstrap_was_set (env.var "H2HC_LINKER_BOOTSTRAP_URL") bootstrap b
            ∙ ap (λ x. some x.bootstrap_url) made,
        ap (λ x. is_some x.admin_secret) (sym made),
        ap (λ x. is_some x.conductor_url) (sym made)
            ∙ conductor_as_set (env.var "H2HC_LINKER_CONDUCTOR_URL") conductor a,
        subst
            (λ x.
              Registered env (env.var "H2HC_LINKER_JOINING_SERVICE_URL")
                (env.var "H2HC_LINKER_PUBLIC_URL") x.registration)
            made
            (read_registration_lem (env.var "H2HC_LINKER_JOINING_SERVICE_URL")
              (env.var "H2HC_LINKER_PUBLIC_URL") registration g),
      )
