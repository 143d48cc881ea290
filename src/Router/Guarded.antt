-- ===== src/Router/Guarded.antt =====
-- src/router.rs: what a request that reaches a handler has shown.
use h2hc_linker.Base.{
  String, ◌≡◌, subst, true, Option, none, some, is_some, arith, Option-cases, inl, inr, ◌⊎◌, ◌↔◌,
  refl, string_eq, eq_iff,
}
use h2hc_linker.Ids.{DnaHash}
use h2hc_linker.Auth.Types.{dht_read, dht_write, k2, SessionInfo}
use h2hc_linker.Auth.SessionStore.{SessionStore}
use h2hc_linker.Auth.Store.{AuthStore}
use h2hc_linker.Auth.Middleware.{
  Request, Response, handled, GuardState, extract_bearer_token, require_k2, require_dht_read,
  require_dht_write, require_admin_secret, dht_read_route, dht_write_route,
}
use h2hc_linker.Auth.Middleware.Guards.{
  Presents, Serves, check_capability_admits, check_capability_handled, dht_read_route_handled,
  dht_write_route_handled, scoped_admits,
}
use h2hc_linker.Router.{
  Route, health, ws, test_signal, zome_call, publish, dht, k2_api, admin, AdminRoute,
  create_open_router, create_authenticated_router, create_router,
}

-- What a request must have shown for its route: for the DHT a session with the capability and the
-- DNA of its path, for the network a session with the capability, for the administration the
-- secret; nothing for the four routes that are always open.
abbrev pub Entitled :
    {S : Type 0} ⦃st : SessionStore S⦄
    → (String → Option DnaHash)
    → GuardState S
    → Route
    → Request
    → Type 0
Entitled parse_dna state (dht r) req = Serves parse_dna state req dht_read
Entitled parse_dna state publish req = Serves parse_dna state req dht_write
Entitled parse_dna state (k2_api r) req =
    (auth_store : AuthStore _) × (token : String) × (session : SessionInfo) × Presents state req k2
      auth_store token session
Entitled parse_dna state (admin r) req =
    (secret : String) × (state.admin_secret ≡ some secret)
    × (extract_bearer_token req ≡ some secret)
Entitled parse_dna state health req = Unit
Entitled parse_dna state ws req = Unit
Entitled parse_dna state test_signal req = Unit
Entitled parse_dna state zome_call req = Unit

-- Without authentication every route but those of the administration is open.
abbrev pub IsOpen : {S : Type 0} → GuardState S → Route → Type 0
IsOpen state route = (state.auth_store ≡ none) × ¬ ((r : AdminRoute) × (route ≡ admin r))

open_through :
    {A : Type 0} (handle : Route → Request → A) (route : Route) (req : Request)
    → ¬ ((r : AdminRoute) × (route ≡ admin r))
    → create_open_router handle route req ≡ handled (handle route req)
unfolding create_open_router
open_through handle (admin r) req n = absurd (n (r, refl))
open_through handle (dht r) req n = refl
open_through handle publish req n = refl
open_through handle (k2_api r) req n = refl
open_through handle health req n = refl
open_through handle ws req n = refl
open_through handle test_signal req n = refl
open_through handle zome_call req n = refl

module _ {S A : Type 0} ⦃st : SessionStore S⦄ where
  require_admin_secret_handled :
      (state : GuardState S) (req : Request) (next : Request → Response A) (a : A)
      → require_admin_secret state req next ≡ handled a
      → (secret : String) × (state.admin_secret ≡ some secret)
        × (extract_bearer_token req ≡ some secret)
  unfolding require_admin_secret
  require_admin_secret_handled state req next a h = elim (Option-cases (extract_bearer_token req)) [
    | inl b ↦ absurd (ground (arith, h, b))
    | inr (token, b) ↦ elim (Option-cases state.admin_secret) [
      | inl s ↦ absurd (ground (arith, h, b, s))
      | inr (secret, s) ↦ (secret, s, ground (arith, h, b, s, eq_iff token secret))
    ]
  ]

module _ {S A : Type 0} ⦃st : SessionStore S⦄ (parse_dna : String → Option DnaHash)
    (handle : Route → Request → A) where
  -- A request is let through to its handler, with or without the context of a session.
  abbrev pub Reaches : GuardState S → Route → Request → Type 0
  Reaches state route req =
      (r : Request) × (create_router parse_dna handle state route req ≡ handled (handle route r))

  handled_only :
      (state : GuardState S) (route : Route) (req : Request) (a : A)
      → create_router parse_dna handle state route req ≡ handled a
      → IsOpen state route
        ⊎ ((is_some state.auth_store ≡ true) × Entitled parse_dna state route req)
  unfolding create_router create_authenticated_router create_open_router require_k2
  handled_only state route req a h = elim (Option-cases state.auth_store) [
    | inl off ↦
        let h' : create_open_router handle route req ≡ handled a = ground (arith, off, h) in
        inl (
          off,
          λ p. not_admin p.0 (subst (λ r. create_open_router handle r req ≡ handled a) p.1 h'),
        )
    | inr (auth_store, on) ↦ inr (ground (arith, on), guarded route (ground (arith, on, h)))
  ]
    where
      not_admin : (r : AdminRoute) → create_open_router handle (admin r) req ≡ handled a → ⊥
      not_admin r e = absurd (ground (arith, e))

      guarded :
          (r : Route)
          → create_authenticated_router parse_dna handle state r req ≡ handled a
          → Entitled parse_dna state r req
      guarded (dht r) e =
          (dht_read_route_handled parse_dna state req (λ q. handled (handle (dht r) q)) a e).0
      guarded publish e =
          (dht_write_route_handled parse_dna state req (λ q. handled (handle publish q)) a e).0
      guarded (k2_api r) e =
          let (auth_store, token, session, p, next) =
            check_capability_handled state req (λ q. handled (handle (k2_api r) q)) k2 a e in
          (auth_store, token, session, p)
      guarded (admin r) e =
          require_admin_secret_handled state req (λ q. handled (handle (admin r) q)) a e
      guarded health e = tt
      guarded ws e = tt
      guarded test_signal e = tt
      guarded zome_call e = tt

  authenticated_through :
      (state : GuardState S) (route : Route) (req : Request)
      → Entitled parse_dna state route req
      → (r : Request) × (create_authenticated_router parse_dna handle state route req
          ≡ handled (handle route r))
  unfolding create_authenticated_router dht_read_route dht_write_route require_dht_read
      require_dht_write require_k2 require_admin_secret
  authenticated_through state (dht q) req s =
      (_, scoped_admits parse_dna state req (λ r. handled (handle (dht q) r)) dht_read s)
  authenticated_through state publish req s =
      (_, scoped_admits parse_dna state req (λ r. handled (handle publish r)) dht_write s)
  authenticated_through state (k2_api q) req (auth_store, token, session, p) = (
    _,
    check_capability_admits state req (λ r. handled (handle (k2_api q) r)) k2 auth_store token
        session p,
  )
  authenticated_through state (admin q) req (secret, s, b) =
      (req, ground (arith, s, b, eq_iff secret secret))
  authenticated_through state health req _ = (req, refl)
  authenticated_through state ws req _ = (req, refl)
  authenticated_through state test_signal req _ = (req, refl)
  authenticated_through state zome_call req _ = (req, refl)

  -- A request is let through to its handler exactly in two cases. Without authentication, if it is not
  -- for the administration. With authentication, if it is entitled to its route: by a session that
  -- validates, with the capability of the route and, for the DHT, with the DNA of the path in its
  -- scope; by the admin secret; or because the route is one of the four that are always open.
  pub create_router-Entitled :
      (state : GuardState S) (route : Route) (req : Request)
      → Reaches state route req ↔ (
          IsOpen state route
          ⊎ ((is_some state.auth_store ≡ true) × Entitled parse_dna state route req))
  unfolding create_router
  create_router-Entitled state route req =
      (λ p. handled_only state route req (handle route p.0) p.1, λ e. reaches e)
    where
      reaches :
          IsOpen state route
            ⊎ ((is_some state.auth_store ≡ true) × Entitled parse_dna state route req)
          → Reaches state route req
      reaches (inl (off, n)) = (req, rw off (open_through handle route req n))
      reaches (inr (on, e)) = elim (Option-cases state.auth_store) [
        | inl off ↦ absurd (ground (arith, on, off))
        | inr (auth_store, s) ↦
            let (r, h) = authenticated_through state route req e in (r, ground (arith, s, h))
      ]
