-- ===== src/Registration.antt =====
-- src/registration.rs and the `RegistrationConfig` of src/config.rs: the client that announces the
-- linker to a joining service. A run is a list of rounds, each with what the request and the
-- shutdown signal do, and gives the requests and the pauses in their order.
pub mod Url
pub mod Order
pub mod Canonical
pub mod Sorted
pub mod Rounds
use Prim.Native.String.{◌++◌ as ◌^◌, len, slice}
use text.Mathlib.Text.{starts_with}
use h2hc_linker.Base.{
  ℕ, ◌-◌, ◌≤◌, String, Bool, true, false, not, ◌&&◌, List, [], ◌∷◌, ◌++◌, Option, none, some,
  if◌then◌else◌, ltb, leb,
}
use h2hc_linker.Host.{Fallible, ok, err, with_error}
use h2hc_linker.Registration.Url.{url_encode_path_segment}
use h2hc_linker.Registration.Canonical.{canonical_json}

-- `replacen(prefix, with, 1)` of a text that starts with the prefix.
abbrev pub swap_prefix : String → String → String → String
swap_prefix prefix new text = new ^ slice text (len prefix) (len text)

pub record RegistrationConfig : Type 0 where
  pub joining_service_url : String
  pub invite_token : Option String
  pub public_url : String
  pub initial_heartbeat_interval_secs : ℕ

unfoldable pub admin_url : RegistrationConfig → String
admin_url config =
    if starts_with config.public_url "wss://"
    then swap_prefix "wss://" "https://" config.public_url
    else (if starts_with config.public_url "ws://"
        then swap_prefix "ws://" "http://" config.public_url
        else config.public_url)

-- The key of the linker with the libraries for text: base64 of the public key and of a signature, a
-- text as JSON, and a text as bytes.
pub record LinkerIdentity : Type 0 where
  pub public_key_base64 : String
  pub sign : String → String
  pub json_string : String → String
  pub bytes : String → List ℕ
  pub of_bytes : List ℕ → String

pub record RegistrationClient : Type 0 where
  pub identity : LinkerIdentity
  pub config : RegistrationConfig
  pub admin_secret : String
  pub is_registered : Bool

unfoldable pub new : LinkerIdentity → RegistrationConfig → String → RegistrationClient
new identity config admin_secret = record {
  identity = identity;
  config = config;
  admin_secret = admin_secret;
  is_registered = false;
}

pub record HeartbeatResponse : Type 0 where
  pub registered : Bool
  pub ttl_seconds : ℕ
  pub heartbeat_interval_seconds : Option ℕ

-- What comes back: the status and its text, the text of the body, and the body parsed.
pub record HttpResponse : Type 0 where
  pub status : ℕ
  pub status_text : String
  pub text : String
  pub json : Fallible HeartbeatResponse

-- The JSON object of a heartbeat; a field that is `none` is left out.
pub record HeartbeatBody : Type 0 where
  pub pubkey : String
  pub invite_token : Option String
  pub linker_url : String
  pub admin_url : String
  pub admin_secret : Option String
  pub rotate_secret : Bool
  pub timestamp : String
  pub signature : String

pub record DeregisterBody : Type 0 where
  pub timestamp : String
  pub signature : String

abbrev pub sign_canonical : LinkerIdentity → List (String × String) → String
sign_canonical identity fields = identity.sign (canonical_json identity.json_string fields)

-- The signed fields and the body of the next heartbeat.
unfoldable pub heartbeat_body : String → RegistrationClient → HeartbeatBody
heartbeat_body timestamp c =
    let pubkey = c.identity.public_key_base64 in
    let renewal : List (String × String) =
      ("admin_url", admin_url c.config)
      ∷ ("linker_url", c.config.public_url)
      ∷ ("pubkey", pubkey)
      ∷ ("timestamp", timestamp)
      ∷ [] in
    let is_first = not c.is_registered in
    record {
      pubkey = pubkey;
      invite_token = c.config.invite_token;
      linker_url = c.config.public_url;
      admin_url = admin_url c.config;
      admin_secret = if is_first then some c.admin_secret else none;
      rotate_secret = false;
      timestamp = timestamp;
      signature =
          sign_canonical c.identity
            (if is_first then ("admin_secret", c.admin_secret) ∷ renewal else renewal);
    }

-- `StatusCode::is_success`
abbrev pub is_success : ℕ → Bool
is_success status = leb 200 status && ltb status 300

abbrev pub registered_of : Fallible HeartbeatResponse → Fallible HeartbeatResponse
registered_of (err e) = err (with_error "Failed to parse heartbeat response: " e)
registered_of (ok resp) =
    if resp.registered then ok resp else err "Heartbeat response: registered=false"

abbrev pub result_of : Fallible HttpResponse → Fallible HeartbeatResponse
result_of (err e) = err (with_error "Heartbeat request failed: " e)
result_of (ok resp) =
    if is_success resp.status
    then registered_of resp.json
    else err
        (with_error (with_error "Heartbeat rejected: " resp.status_text) (with_error " " resp.text))

abbrev pub is_ok : {A : Type 0} → Fallible A → Bool
is_ok (ok a) = true
is_ok (err e) = false

-- The state after a heartbeat that was answered.
unfoldable pub send_heartbeat :
    Fallible HttpResponse → RegistrationClient → Fallible HeartbeatResponse × RegistrationClient
send_heartbeat answer c =
    let result = result_of answer in (result, record c { is_registered = is_ok result })

-- The interval before the next heartbeat.
abbrev pub directed : ℕ → Option ℕ → ℕ
directed interval_secs none = interval_secs
directed interval_secs (some server_interval) =
    if ltb 0 server_interval then server_interval else interval_secs

abbrev pub next_interval : ℕ → Fallible HeartbeatResponse → ℕ
next_interval interval_secs (ok resp) = directed interval_secs resp.heartbeat_interval_seconds
next_interval interval_secs (err e) = 30

-- What the client does.
pub data Act : Type 0 where
  posts : String → HeartbeatBody → Act
  sleeps : ℕ → Act
  deletes : String → DeregisterBody → Act

abbrev pub heartbeat_url : RegistrationConfig → String
heartbeat_url config = config.joining_service_url ^ "/v1/linkers/heartbeat"

abbrev pub deregister : String → RegistrationClient → Act
deregister timestamp c =
    let pubkey = c.identity.public_key_base64 in
    let encoded_pubkey = c.identity.of_bytes (url_encode_path_segment (c.identity.bytes pubkey)) in
    deletes (c.config.joining_service_url ^ "/v1/linkers/" ^ encoded_pubkey) (record {
      timestamp = timestamp;
      signature = sign_canonical c.identity (("pubkey", pubkey) ∷ ("timestamp", timestamp) ∷ []);
    })

-- The outcome of the request is only logged.
unfoldable pub handle_shutdown : String → RegistrationClient → List Act
handle_shutdown timestamp c = if c.is_registered then deregister timestamp c ∷ [] else []

-- How a round goes: the heartbeat is answered and the pause elapses; the signal comes during the
-- heartbeat, whose future is dropped before or after its request is sent; or it comes during the
-- pause. With the times that the client reads.
pub data Round : Type 0 where
  completed : String → Fallible HttpResponse → Round
  stopped_early : Option String → String → Round
  stopped_late : String → Fallible HttpResponse → String → Round

abbrev pub posted : Option String → RegistrationClient → List Act
posted none c = []
posted (some timestamp) c = posts (heartbeat_url c.config) (heartbeat_body timestamp c) ∷ []

abbrev pub run_with : List Round → ℕ → RegistrationClient → List Act
run_with [] interval_secs c = []
run_with (completed at answer ∷ rounds) interval_secs c =
    let (result, c') = send_heartbeat answer c in
    let interval_secs' = next_interval interval_secs result in
    posted (some at) c ++ sleeps interval_secs' ∷ run_with rounds interval_secs' c'
run_with (stopped_early at end ∷ rounds) interval_secs c = posted at c ++ handle_shutdown end c
run_with (stopped_late at answer end ∷ rounds) interval_secs c =
    let (result, c') = send_heartbeat answer c in
    posted (some at) c ++ sleeps (next_interval interval_secs result) ∷ handle_shutdown end c'

unfoldable pub run : List Round → RegistrationClient → List Act
run rounds c = run_with rounds c.config.initial_heartbeat_interval_secs c
