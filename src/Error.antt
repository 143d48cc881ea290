-- ===== src/Error.antt =====
-- src/error.rs: the errors of the handlers, their texts, and the status and message of the response.
use h2hc_linker.Base.{ℕ, String, ◌≡◌, refl, ◌⊎◌, inl, inr}
use h2hc_linker.Host.{with_error}

-- The error of the conductor's client is its text.
pub data LinkerError : Type 0 where
  config network serialization not_found invalid_request internal : String → LinkerError
  holochain_error : String → LinkerError
  upstream_unavailable : LinkerError
  authentication_failed forbidden request_malformed : String → LinkerError

-- `LinkerResult`
pub data LinkerResult (A : Type 0) : Type 0 where
  done : A → LinkerResult A
  failure : LinkerError → LinkerResult A

pub LinkerResult-cases :
    {A : Type 0} (c : LinkerResult A)
    → ((a : A) × (c ≡ done a)) ⊎ ((e : LinkerError) × (c ≡ failure e))
LinkerResult-cases (done a) = inl (a, refl)
LinkerResult-cases (failure e) = inr (e, refl)

-- `to_string`
abbrev pub to_string : LinkerError → String
to_string (config text) = with_error "Configuration error: " text
to_string (network text) = with_error "Network error: " text
to_string (serialization text) = with_error "Serialization error: " text
to_string (not_found text) = with_error "Not found: " text
to_string (invalid_request text) = with_error "Invalid request: " text
to_string (internal text) = with_error "Internal error: " text
to_string (holochain_error text) = with_error "Holochain error: " text
to_string upstream_unavailable = "Upstream unavailable"
to_string (authentication_failed text) = with_error "Authentication failed: " text
to_string (forbidden text) = with_error "Forbidden: " text
to_string (request_malformed text) = with_error "Request malformed: " text

-- `into_response`: the code and the message of the body.
abbrev pub into_response : LinkerError → ℕ × String
into_response (config text) = (400, text)
into_response (network text) = (502, text)
into_response (serialization text) = (400, text)
into_response (not_found text) = (404, text)
into_response (invalid_request text) = (400, text)
into_response (internal text) = (500, text)
into_response (holochain_error text) = (502, with_error "Holochain error: " text)
into_response upstream_unavailable = (503, "Upstream unavailable")
into_response (authentication_failed text) = (401, text)
into_response (forbidden text) = (403, text)
into_response (request_malformed text) = (400, text)

-- `?`
infixl 5 ◌>>=◌
abbrev pub ◌>>=◌ : {A B : Type 0} → LinkerResult A → (A → LinkerResult B) → LinkerResult B
done a >>= f = f a
failure e >>= f = failure e
