-- ===== src/Config.antt =====
-- src/config.rs: the configuration and its reading from the environment. A path and an address are
-- texts, a duration is in milliseconds.
pub mod Read
use Prim.Native.String.{len, slice}
use text.Mathlib.Text.{starts_with}
use h2hc_linker.Base.{
  ℕ, zero, suc, String, Bool, true, ◌||◌, Option, none, some, is_some, if◌then◌else◌, ◌==◌,
  string_eq,
}
use h2hc_linker.Host.{Fallible, ok, err, with_error, ◌>>=◌}
use h2hc_linker.Identity.{IdentityConfig}
use h2hc_linker.Registration.{RegistrationConfig}

-- The environment and what the libraries make of a text: an address, a number of 64 or of 32 bits,
-- its lower case, and the scheme of a URL.
pub record ConfigEnv : Type 0 where
  pub var : String → Option String
  pub parse_addr : String → Fallible String
  pub parse_number : String → Fallible ℕ
  pub parse_u32 : String → Fallible ℕ
  pub to_lowercase : String → String
  pub url_scheme : String → Fallible String

pub data SessionStoreConfig : Type 0 where
  memory : SessionStoreConfig
  sqlite : String → SessionStoreConfig

pub data ReportConfig : Type 0 where
  no_report : ReportConfig
  json_lines : ℕ → ℕ → ReportConfig

pub record WebSocketConfig : Type 0 where
  pub heartbeat_interval : ℕ
  pub heartbeat_timeout : ℕ
  pub idle_timeout : ℕ

abbrev pub websocket_default : WebSocketConfig
websocket_default = record {
  heartbeat_interval = 30000;
  heartbeat_timeout = 10000;
  idle_timeout = 300000;
}

pub record Configuration : Type 0 where
  pub conductor_url : Option String
  pub bootstrap_url : String
  pub relay_url : Option String
  pub payload_limit_bytes : ℕ
  pub websocket : WebSocketConfig
  pub zome_call_timeout : ℕ
  pub admin_secret : Option String
  pub session_store : SessionStoreConfig
  pub report : ReportConfig
  pub report_path : String
  pub identity : IdentityConfig
  pub registration : Option RegistrationConfig

-- `DEFAULT_ZOME_CALL_TIMEOUT`
abbrev pub default_zome_call_timeout : ℕ
default_zome_call_timeout = 10000

unfoldable pub default : Configuration
default = record {
  conductor_url = none;
  bootstrap_url = "";
  relay_url = none;
  payload_limit_bytes = 20971520;
  websocket = websocket_default;
  zome_call_timeout = default_zome_call_timeout;
  admin_secret = none;
  session_store = memory;
  report = no_report;
  report_path = "/tmp/h2hc-linker-reports";
  identity = record { key_file = "./linker-key.ed25519"; private_key_base64 = none };
  registration = none;
}

abbrev pub or_text : String → Option String → String
or_text text none = text
or_text text (some set) = set

-- `.ok().and_then(|v| v.parse().ok()).unwrap_or(..)`
abbrev pub parsed_or : ℕ → (String → Fallible ℕ) → Option String → ℕ
parsed_or n parse none = n
parsed_or n parse (some text) = elim (parse text) [ ok m ↦ m | err e ↦ n ]

-- `trim_start_matches`: the prefix off the start, as often as it stands there.
abbrev pub trim_on : ℕ → String → String → String
trim_on zero prefix text = text
trim_on (suc fuel) prefix text =
    let rest = trim_on fuel prefix (slice text (len prefix) (len text)) in
    if starts_with text prefix then rest else text

abbrev pub trim_start_matches : String → String → String
trim_start_matches prefix text = trim_on (len text) prefix text

module _ (env : ConfigEnv) where
  abbrev pub read_conductor_url : Option String → Fallible (Option String)
  read_conductor_url none = ok none
  read_conductor_url (some url) = do addr ← env.parse_addr url; ok (some addr)

  abbrev pub read_bootstrap_url : Option String → Fallible String
  read_bootstrap_url (some url) = ok url
  read_bootstrap_url none =
      err
        "H2HC_LINKER_BOOTSTRAP_URL is required. h2hc-linker cannot operate without kitsune2 networking. Set it to your bootstrap server URL (e.g. http://127.0.0.1:PORT)"

  abbrev pub read_number : ℕ → Option String → Fallible ℕ
  read_number n none = ok n
  read_number n (some text) = env.parse_number text

  unfoldable pub read_report : Option String → Fallible ReportConfig
  read_report none = ok no_report
  read_report (some report_type) =
      let kind = env.to_lowercase report_type in
      if (kind == "json_lines") || (kind == "jsonlines") || (kind == "jsonl")
      then ok (
          json_lines (parsed_or 5 env.parse_u32 (env.var "H2HC_LINKER_REPORT_DAYS_RETAINED"))
            (parsed_or 60 env.parse_u32 (env.var "H2HC_LINKER_REPORT_INTERVAL_S")))
      else if (kind == "none") || (kind == "")
      then ok no_report
      else err (
          with_error "Unknown H2HC_LINKER_REPORT value: '"
            (with_error kind "'. Use 'json_lines' or 'none'."))

  abbrev pub check_joining_scheme : String → Fallible (Unit {0})
  check_joining_scheme scheme =
      if (scheme == "http") || (scheme == "https")
      then ok tt
      else err (
          with_error "H2HC_LINKER_JOINING_SERVICE_URL must use http:// or https:// scheme, got: "
            scheme)

  abbrev pub check_public_scheme : String → Fallible (Unit {0})
  check_public_scheme scheme =
      if (scheme == "ws") || (scheme == "wss") || (scheme == "http") || (scheme == "https")
      then ok tt
      else err (
          with_error
            "H2HC_LINKER_PUBLIC_URL must use ws://, wss://, http://, or https:// scheme, got: "
            scheme)

  -- `map_err` to a text in front of the error.
  abbrev pub scheme_of : String → String → Fallible String
  scheme_of text url = elim (env.url_scheme url) [
    | ok scheme ↦ ok scheme
    | err e ↦ err (with_error text e)
  ]

  unfoldable pub read_registration :
      Option String → Option String → Fallible (Option RegistrationConfig)
  read_registration (some js_url) (some pub_url) = do
    parsed_js ← scheme_of "H2HC_LINKER_JOINING_SERVICE_URL is not a valid URL: " js_url
    checked_js ← check_joining_scheme parsed_js
    parsed_pub ← scheme_of "H2HC_LINKER_PUBLIC_URL is not a valid URL: " pub_url
    checked_pub ← check_public_scheme parsed_pub
    ok (
        some (record {
          joining_service_url = js_url;
          invite_token = env.var "H2HC_LINKER_INVITE_TOKEN";
          public_url = pub_url;
          initial_heartbeat_interval_secs =
              parsed_or 200 env.parse_number (env.var "H2HC_LINKER_HEARTBEAT_INTERVAL_SECS");
        }))
  read_registration (some js_url) none =
      err
        "H2HC_LINKER_JOINING_SERVICE_URL is set but H2HC_LINKER_PUBLIC_URL is missing. Both are required for registration."
  read_registration none (some pub_url) =
      err
        "H2HC_LINKER_PUBLIC_URL is set but H2HC_LINKER_JOINING_SERVICE_URL is missing. Both are required for registration."
  read_registration none none = ok none

  unfoldable pub read_session_store : Option String → Fallible SessionStoreConfig
  read_session_store none = ok memory
  read_session_store (some val) =
      if (val == "") || (val == "memory")
      then ok memory
      else if starts_with val "sqlite://"
      then ok (sqlite (trim_start_matches "sqlite://" val))
      else err (
          with_error "Unknown H2HC_LINKER_SESSION_STORE value: '"
            (with_error val "'. Use 'memory' or 'sqlite:///path/to/sessions.db'."))

  -- The fields in the order in which the variables are read; one that is not set leaves the default.
  unfoldable pub from_env : Fallible Configuration
  unfolding read_report read_registration read_session_store default
  from_env = do
    conductor_url ← read_conductor_url (env.var "H2HC_LINKER_CONDUCTOR_URL")
    bootstrap_url ← read_bootstrap_url (env.var "H2HC_LINKER_BOOTSTRAP_URL")
    payload_limit ←
        read_number default.payload_limit_bytes (env.var "H2HC_LINKER_PAYLOAD_LIMIT_BYTES")
    timeout ← read_number default.zome_call_timeout (env.var "H2HC_LINKER_ZOME_CALL_TIMEOUT_MS")
    report ← read_report (env.var "H2HC_LINKER_REPORT")
    registration ←
        read_registration (env.var "H2HC_LINKER_JOINING_SERVICE_URL")
          (env.var "H2HC_LINKER_PUBLIC_URL")
    session_store ← read_session_store (env.var "H2HC_LINKER_SESSION_STORE")
    ok (record {
      conductor_url = conductor_url;
      bootstrap_url = bootstrap_url;
      relay_url = env.var "H2HC_LINKER_RELAY_URL";
      payload_limit_bytes = payload_limit;
      websocket = default.websocket;
      zome_call_timeout = timeout;
      admin_secret = env.var "H2HC_LINKER_ADMIN_SECRET";
      session_store = session_store;
      report = report;
      report_path = or_text default.report_path (env.var "H2HC_LINKER_REPORT_PATH");
      identity = record {
        key_file = or_text default.identity.key_file (env.var "H2HC_LINKER_KEY_FILE");
        private_key_base64 = env.var "H2HC_LINKER_PRIVATE_KEY";
      };
      registration = registration;
    })

unfoldable pub kitsune_enabled : Configuration → Bool
kitsune_enabled config = true

unfoldable pub conductor_enabled : Configuration → Bool
conductor_enabled config = is_some config.conductor_url

unfoldable pub auth_enabled : Configuration → Bool
auth_enabled config = is_some config.admin_secret

unfoldable pub registration_enabled : Configuration → Bool
registration_enabled config = is_some config.registration
