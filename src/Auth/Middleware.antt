-- ===== src/Auth/Middleware.antt =====
-- src/auth/middleware.rs: the guards of the HTTP routes, each a function of the handler that follows
-- (`next`), composed as src/router.rs layers them. A request has what the guards read of it.
pub mod Guards
use Prim.Native.Char.{Char, code}
use h2hc_linker.Base.{
  ℕ, String, Bool, true, false, Option, none, some, if◌then◌else◌, ◌==◌, is_some, string_eq, nat_eq,
}
use h2hc_linker.Ids.{DnaHash}
use h2hc_linker.Auth.Types.{
  Capability, dht_read, dht_write, k2, SessionInfo, AuthContext, has_capability, has_dna,
}
use h2hc_linker.Auth.SessionStore.{SessionStore}
use h2hc_linker.Auth.Store.{AuthStore, validate_session}

-- `str::strip_prefix`.
abbrev pub strip_prefix : String → String → Option String
strip_prefix String.[] s = some s
strip_prefix (String.◌∷◌ c p) String.[] = none
strip_prefix (String.◌∷◌ c p) (String.◌∷◌ d s) =
    let rest = strip_prefix p s in if code c == code d then rest else none

-- `authorization`: the header as a text, absent if it is missing or not a text. `dna_hash`: the
-- path's parameter of that name. `extension`: the `AuthContext` among the extensions.
pub record Request : Type 0 where
  pub authorization : Option String
  pub dna_hash : Option String
  pub extension : Option AuthContext

pub data StatusCode : Type 0 where
  no_content bad_request unauthorized forbidden not_found internal_server_error : StatusCode

-- A response that a guard makes itself, or that of the handler.
pub data Response (A : Type 0) : Type 0 where
  reply : StatusCode → String → Response A
  handled : A → Response A

unfoldable pub extract_bearer_token : Request → Option String
extract_bearer_token req = elim req.authorization [
  | none ↦ none
  | some header ↦ strip_prefix "Bearer " header
]

-- What the guards read of the `AppState`.
pub record GuardState (S : Type 0) : Type 0 where
  pub admin_secret : Option String
  pub auth_store : Option (AuthStore S)

abbrev pub context_of : SessionInfo → AuthContext
context_of session = record {
  agent_pubkey = session.agent_pubkey;
  capabilities = session.capabilities;
  registered_dnas = session.registered_dnas;
}

module _ {S A : Type 0} ⦃st : SessionStore S⦄ where
  unfoldable pub check_capability :
      GuardState S → Request → (Request → Response A) → Capability → Response A
  unfolding extract_bearer_token has_capability
  check_capability state req next required = elim state.auth_store [
    | none ↦ reply internal_server_error "Auth not configured"
    | some auth_store ↦ elim (extract_bearer_token req) [
      | none ↦ reply unauthorized "Missing Authorization header"
      | some token ↦ elim (validate_session token auth_store) [
        | none ↦ reply unauthorized "Invalid or expired session token"
        | some session ↦
            if has_capability session required
            then next (record req { extension = some (context_of session) })
            else reply forbidden "Insufficient capabilities for this endpoint"
      ]
    ]
  ]

  unfoldable pub require_dht_read : GuardState S → Request → (Request → Response A) → Response A
  unfolding check_capability
  require_dht_read state req next = check_capability state req next dht_read

  unfoldable pub require_dht_write : GuardState S → Request → (Request → Response A) → Response A
  unfolding check_capability
  require_dht_write state req next = check_capability state req next dht_write

  unfoldable pub require_k2 : GuardState S → Request → (Request → Response A) → Response A
  unfolding check_capability
  require_k2 state req next = check_capability state req next k2

  unfoldable pub require_admin_secret : GuardState S → Request → (Request → Response A) → Response A
  unfolding extract_bearer_token
  require_admin_secret state req next = elim (extract_bearer_token req) [
    | none ↦ reply unauthorized "Missing Authorization header"
    | some token ↦ elim state.admin_secret [
      | none ↦ reply internal_server_error "Auth not configured"
      | some secret ↦
          if token == secret then next req else reply unauthorized "Invalid admin secret"
    ]
  ]

module _ {A : Type 0} (parse_dna : String → Option DnaHash) where
  -- `parse_dna` is `DnaHash::try_from` of the library.
  unfoldable pub require_dna_scope : Request → (Request → Response A) → Response A
  unfolding has_dna
  require_dna_scope req next = elim req.extension [
    | none ↦
        reply internal_server_error
          "AuthContext not found — ensure capability middleware runs first"
    | some auth_ctx ↦ elim req.dna_hash [
      | none ↦ reply bad_request "Missing DNA hash in path"
      | some dna_hash_str ↦ elim (parse_dna dna_hash_str) [
        | none ↦ reply bad_request "Invalid DNA hash in path"
        | some dna_hash ↦
            if has_dna auth_ctx dna_hash
            then next req
            else reply forbidden "Session not authorized for this DNA"
      ]
    ]
  ]

module _ {S A : Type 0} ⦃st : SessionStore S⦄ (parse_dna : String → Option DnaHash) where
  -- The layers of `dht_read_routes` and `dht_write_routes` of `create_authenticated_router`.
  unfoldable pub dht_read_route : GuardState S → Request → (Request → Response A) → Response A
  unfolding require_dht_read require_dna_scope
  dht_read_route state req handler =
      require_dht_read state req λ r. require_dna_scope parse_dna r handler

  unfoldable pub dht_write_route : GuardState S → Request → (Request → Response A) → Response A
  unfolding require_dht_write require_dna_scope
  dht_write_route state req handler =
      require_dht_write state req λ r. require_dna_scope parse_dna r handler
