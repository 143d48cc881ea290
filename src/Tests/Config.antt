-- ===== src/Tests/Config.antt =====
-- The theorems on the configuration.
use h2hc_linker.Base.{String, Option, none, some, if◌then◌else◌, ◌==◌, string_eq}
use h2hc_linker.Host.{ok, err}
use h2hc_linker.Config.{ConfigEnv, sqlite, Configuration, default}

-- The bootstrap URL, the admin secret and a session store are set.
abbrev pub var : String → Option String
var name =
    if name == "H2HC_LINKER_BOOTSTRAP_URL"
    then some "http://b"
    else if name == "H2HC_LINKER_ADMIN_SECRET"
    then some "secret"
    else if name == "H2HC_LINKER_SESSION_STORE"
    then some "sqlite:///s.db"
    else none

abbrev pub env : ConfigEnv
env = record {
  var = var;
  parse_addr = λ s. ok s;
  parse_number = λ s. err "no number";
  parse_u32 = λ s. err "no number";
  to_lowercase = λ s. s;
  url_scheme = λ s. ok "https";
}

abbrev pub config : Configuration
config = record default {
  bootstrap_url = "http://b";
  admin_secret = some "secret";
  session_store = sqlite "/s.db";
}
