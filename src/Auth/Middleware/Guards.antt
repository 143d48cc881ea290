-- ===== src/Auth/Middleware/Guards.antt =====
-- src/auth/middleware.rs: exactly when a guard lets a request through, and what it answers
-- otherwise.
use h2hc_linker.Base.{
  ◌∙◌, String, ◌≡◌, refl, true, false, Option, none, some, arith, Option-cases, Bool-cases, inl,
  inr, nat_eq,
}
use h2hc_linker.Base.Lists.{contains}
use h2hc_linker.Ids.{DnaHash}
use h2hc_linker.Auth.Types.{
  Capability, dht_read, dht_write, SessionInfo, AuthContext, has_capability,
}
use h2hc_linker.Auth.SessionStore.{SessionStore}
use h2hc_linker.Auth.Store.{AuthStore, validate_session}
use h2hc_linker.Auth.Middleware.{
  Request, Response, reply, handled, GuardState, context_of, extract_bearer_token, check_capability,
  require_dna_scope, dht_read_route, dht_write_route, unauthorized, forbidden,
  internal_server_error,
}

-- The request `req` presents a token of a session that has the capability.
pub record Presents {S : Type 0} ⦃st : SessionStore S⦄ (state : GuardState S) (req : Request)
    (required : Capability) (auth_store : AuthStore S) (token : String) (session : SessionInfo)
    : Type 0 where
  pub configured : state.auth_store ≡ some auth_store
  pub bearer : extract_bearer_token req ≡ some token
  pub valid : validate_session token auth_store ≡ some session
  pub capable : has_capability session required ≡ true

module _ {S A : Type 0} ⦃st : SessionStore S⦄ where
  -- The handler behind `check_capability` runs for a request that presents a session with the
  -- capability, with the context of this session, and whatever it answers is the answer.
  pub check_capability_admits :
      (state : GuardState S) (req : Request) (next : Request → Response A) (required : Capability)
      (auth_store : AuthStore S) (token : String) (session : SessionInfo)
      → Presents state req required auth_store token session
      → check_capability state req next required
        ≡ next (record req { extension = some (context_of session) })
  unfolding check_capability
  check_capability_admits state req next required auth_store token session p =
      ground (arith, p.configured, p.bearer, p.valid, p.capable)

  -- The guard answers by itself, with 500, 401, 401 and 403, when authentication is not
  -- configured, when there is no bearer token, when the token does not validate, and when its
  -- session lacks the capability, tested in this order.
  pub check_capability_refuses :
      (state : GuardState S) (req : Request) (next : Request → Response A) (required : Capability)
      → (state.auth_store ≡ none
          → check_capability state req next required
            ≡ reply internal_server_error "Auth not configured")
        × ((auth_store : AuthStore S)
            → state.auth_store ≡ some auth_store
            → (extract_bearer_token req ≡ none
                → check_capability state req next required
                  ≡ reply unauthorized "Missing Authorization header")
              × ((token : String)
                  → extract_bearer_token req ≡ some token
                  → (validate_session token auth_store ≡ none
                      → check_capability state req next required
                        ≡ reply unauthorized "Invalid or expired session token")
                    × ((session : SessionInfo)
                        → validate_session token auth_store ≡ some session
                        → has_capability session required ≡ false
                        → check_capability state req next required
                          ≡ reply forbidden "Insufficient capabilities for this endpoint")))
  unfolding check_capability
  check_capability_refuses state req next required = (
    λ e. ground (arith, e),
    λ auth_store e. (
      λ b. ground (arith, e, b),
      λ token b. (λ v. ground (arith, e, b, v), λ session v c. ground (arith, e, b, v, c)),
    ),
  )

  -- The handler behind `check_capability` runs only for a request that presents a session with the
  -- capability, and then with the context of this session.
  pub check_capability_handled :
      (state : GuardState S) (req : Request) (next : Request → Response A) (required : Capability)
      (a : A)
      → check_capability state req next required ≡ handled a
      → (auth_store : AuthStore S) × (token : String) × (session : SessionInfo) × Presents state req
          required auth_store token session
        × (next (record req { extension = some (context_of session) }) ≡ handled a)
  check_capability_handled state req next required a h =
      let refused = check_capability_refuses state req next required in
      elim (Option-cases state.auth_store) [
        | inl e ↦ absurd (cc (h, refused.0 e))
        | inr (auth_store, e) ↦ elim (Option-cases (extract_bearer_token req)) [
          | inl b ↦ absurd (cc (h, (refused.1 auth_store e).0 b))
          | inr (token, b) ↦ elim (Option-cases (validate_session token auth_store)) [
            | inl v ↦ absurd (cc (h, ((refused.1 auth_store e).1 token b).0 v))
            | inr (session, v) ↦ elim (Bool-cases (has_capability session required)) [
              | inl c ↦
                  let p : Presents state req required auth_store token session = record {
                    configured = e;
                    bearer = b;
                    valid = v;
                    capable = c;
                  } in
                  (
                    auth_store,
                    token,
                    session,
                    p,
                    cc (
                      h,
                      check_capability_admits state req next required auth_store token session p,
                    ),
                  )
              | inr c ↦ absurd (cc (h, ((refused.1 auth_store e).1 token b).1 session v c))
            ]
          ]
        ]
      ]

module _ {A : Type 0} (parse_dna : String → Option DnaHash) where
  -- The handler behind `require_dna_scope` runs, on the request as it is, only if the path names a
  -- DNA of the context's scope.
  pub require_dna_scope_handled :
      (req : Request) (next : Request → Response A) (ctx : AuthContext) (a : A)
      → req.extension ≡ some ctx
      → require_dna_scope parse_dna req next ≡ handled a
      → (text : String) × (dna : DnaHash) × (req.dna_hash ≡ some text)
        × (parse_dna text ≡ some dna)
        × (contains ctx.registered_dnas dna ≡ true)
        × (next req ≡ handled a)
  unfolding require_dna_scope
  require_dna_scope_handled req next ctx a e h = elim (Option-cases req.dna_hash) [
    | inl d ↦ absurd (ground (arith, e, d, h))
    | inr (text, d) ↦ elim (Option-cases (parse_dna text)) [
      | inl p ↦ absurd (ground (arith, e, d, p, h))
      | inr (dna, p) ↦ (text, dna, d, p, ground (arith, e, d, p, h), ground (arith, e, d, p, h))
    ]
  ]

-- A request that a DNA-scoped route serves: its session has the capability, and the DNA of its path
-- is in the scope of the session.
pub record Serves {S : Type 0} ⦃st : SessionStore S⦄ (parse_dna : String → Option DnaHash)
    (state : GuardState S) (req : Request) (required : Capability) : Type 0 where
  pub auth_store : AuthStore S
  pub token : String
  pub session : SessionInfo
  pub text : String
  pub dna : DnaHash
  pub presents : Presents state req required auth_store token session
  pub path : req.dna_hash ≡ some text
  pub parsed : parse_dna text ≡ some dna
  pub in_scope : contains session.registered_dnas dna ≡ true

module _ {S A : Type 0} ⦃st : SessionStore S⦄ (parse_dna : String → Option DnaHash) where
  scoped_handled :
      (state : GuardState S) (req : Request) (handler : Request → Response A)
      (required : Capability) (a : A)
      → check_capability state req (λ r. require_dna_scope parse_dna r handler) required ≡ handled a
      → (s : Serves parse_dna state req required) × (handler
            (record req { extension = some (context_of s.session) })
          ≡ handled a)
  scoped_handled state req handler required a h =
      let (auth_store, token, session, p, h') =
        check_capability_handled state req (λ r. require_dna_scope parse_dna r handler) required a
          h in
      let (text, dna, d, e, m, h'') =
        require_dna_scope_handled parse_dna _ handler (context_of session) a refl h' in
      (
        record {
          auth_store = auth_store;
          token = token;
          session = session;
          text = text;
          dna = dna;
          presents = p;
          path = d;
          parsed = e;
          in_scope = m;
        },
        h'',
      )

  -- The read routes run their handler only for a session with `DhtRead` whose scope has the DNA.
  pub dht_read_route_handled :
      (state : GuardState S) (req : Request) (handler : Request → Response A) (a : A)
      → dht_read_route parse_dna state req handler ≡ handled a
      → (s : Serves parse_dna state req dht_read) × (handler
            (record req { extension = some (context_of s.session) })
          ≡ handled a)
  unfolding dht_read_route
  dht_read_route_handled state req handler a h = scoped_handled state req handler dht_read a h

  -- The publish route runs its handler only for a session with `DhtWrite` whose scope has the DNA.
  pub dht_write_route_handled :
      (state : GuardState S) (req : Request) (handler : Request → Response A) (a : A)
      → dht_write_route parse_dna state req handler ≡ handled a
      → (s : Serves parse_dna state req dht_write) × (handler
            (record req { extension = some (context_of s.session) })
          ≡ handled a)
  unfolding dht_write_route
  dht_write_route_handled state req handler a h = scoped_handled state req handler dht_write a h

  -- The layers of a DNA-scoped route let a request that the route serves through to the handler, with
  -- the context of its session.
  pub scoped_admits :
      (state : GuardState S) (req : Request) (handler : Request → Response A)
      (required : Capability) (s : Serves parse_dna state req required)
      → check_capability state req (λ r. require_dna_scope parse_dna r handler) required
        ≡ handler (record req { extension = some (context_of s.session) })
  unfolding require_dna_scope
  scoped_admits state req handler required s =
      check_capability_admits state req (λ r. require_dna_scope parse_dna r handler) required
        s.auth_store s.token s.session s.presents
      ∙ ground (arith, s.path, s.parsed, s.in_scope)
