-- ===== src/Tests/Service.antt =====
-- The theorems on the router, the zome calls and the start of the service.
use h2hc_linker.Base.{
  ℕ, ◌≡◌, refl, true, List, [], ◌∷◌, none, some, is_some, ◌⊎◌, ◌↔◌, nat_eq, string_eq, pair_eq,
  ◌==◌, if◌then◌else◌,
}
use h2hc_linker.Host.{ok, err}
use h2hc_linker.Error.{done, holochain_error, failure}
use h2hc_linker.Auth.Types.{dht_read}
use h2hc_linker.Auth.Memory.{memory_store}
use h2hc_linker.Auth.Store.{with_store}
use h2hc_linker.Auth.Sqlite
use h2hc_linker.Auth.Middleware.{Request}
use h2hc_linker.Auth.Middleware.Guards.{Serves}
use h2hc_linker.Router.{Route, dht, record_route}
use h2hc_linker.Router.Guarded.{IsOpen, Reaches, create_router-Entitled}
use h2hc_linker.Proxy
use h2hc_linker.Proxy.{queued, registration_eq}
use h2hc_linker.Gateway
use h2hc_linker.Conductor.{answered, CellId, provisioned, AppInfo, Conductor, AppConn, call_zome}
use h2hc_linker.Conductor.Calls.{TimedCall, call_all, call_zome_cached}
use h2hc_linker.ZomeCall.{ZomeCallPath, Transcoder}
use h2hc_linker.Config.{from_env, read_report, read_registration, read_session_store, default}
use h2hc_linker.Identity.{IdentityEnv, load, write_to_file}
use h2hc_linker.Service.{ServiceEnv, LinkerService, in_file, assemble, new}
use h2hc_linker.Service.Started.{Shown, started_lem}
use h2hc_linker.Tests.Guards
use h2hc_linker.Tests.Config
use h2hc_linker.Tests.NetworkApi.{api}

abbrev handle : Route → Request → ℕ
handle route req = 7

create_router-Entitled_example :
    Reaches Guards.parse handle Guards.state (dht record_route) Guards.req ↔ (
      IsOpen Guards.state (dht record_route)
      ⊎ ((is_some Guards.state.auth_store ≡ true)
          × Serves Guards.parse Guards.state Guards.req dht_read))
create_router-Entitled_example =
    create_router-Entitled Guards.parse handle Guards.state (dht record_route) Guards.req

abbrev cell : CellId
cell = record { dna_hash = 5; agent_pubkey = 2 }

abbrev app : AppInfo
app = record { installed_app_id = "app"; cell_info = (provisioned cell ∷ []) ∷ [] }

-- The socket 8 answers by the payload, every other fails.
abbrev conductor : Conductor
conductor = record {
  connect = λ attempt. some 1;
  list_apps = λ attempt ws. answered (app ∷ []);
  issue_app_auth_token = λ ws id. ok 3;
  list_app_interfaces = λ ws. ok (record { port = 4; is_allowed = true } ∷ []);
  attach_app_interface = λ ws. ok 5;
  connect_app = λ port token. some (8, []);
  authorize_signing_credentials = λ ws c. ok tt;
  call_zome = λ ws c zome fn payload. if ws == 8 then ok payload else err "closed";
  dna_text = λ dna. "dna";
}

-- A connection with the socket 9 for the app.
abbrev dead_socket : AppConn
dead_socket = record {
  admin_conn = record { handle = none };
  connections = ("app", 9) ∷ [];
  app_info_cache = app ∷ [];
}

-- A call before and two after a restart of the conductor, which then answers over a new socket only.
abbrev at_restart : List TimedCall
at_restart =
    record {
      conductor = record conductor { call_zome = λ ws c zome fn payload. ok payload };
      zome_name = "zome";
      fn_name = "fn";
      payload = 7 ∷ [];
    }
    ∷ record { conductor = conductor; zome_name = "zome"; fn_name = "fn"; payload = [] }
    ∷ record { conductor = conductor; zome_name = "zome"; fn_name = "fn"; payload = [] }
    ∷ []

call_zome_cached_example : call_all 5 at_restart dead_socket ≡ (
  done (7 ∷ []) ∷ failure (holochain_error "closed") ∷ failure (holochain_error "closed") ∷ [],
  dead_socket,
)
call_zome_cached_example = call_zome_cached 5 at_restart dead_socket app cell 9 refl refl

-- A JSON value is its bytes.
abbrev transcoder : Transcoder (List ℕ)
transcoder = record {
  b64_decode = λ s. ok (1 ∷ []);
  from_slice = λ bytes. ok bytes;
  null_value = [];
  encode = λ v. ok v;
  decode = λ bytes. ok bytes;
  text = λ v. "1";
}

abbrev path : ZomeCallPath
path = record { dna_hash = "dna"; zome_name = "zome"; fn_name = "fn" }

abbrev live : AppConn
live = record dead_socket { connections = ("app", 8) ∷ [] }

abbrev identity_env : IdentityEnv
identity_env = record {
  decode = λ s. err "no key";
  secret = 4 ∷ [];
  number_text = λ n. "n";
  read_fails = none;
  create_dir_fails = none;
  write_fails = none;
  partial = [];
  permissions_fail = none;
}

abbrev service_env : ServiceEnv
service_env = record {
  identity_env = identity_env;
  build_kitsune = ok api;
  open_sqlite = λ p. ok (Sqlite.new []);
}

abbrev service : LinkerService
service = record {
  configuration = Config.config;
  agent_proxy = Proxy.new;
  gateway_kitsune = some Gateway.new;
  kitsune_state = record {
    enabled = true;
    bootstrap_url = some "http://b";
    relay_url = none;
    kitsune = some api;
  };
  app_conn = none;
  temp_op_store = some (record { ops = [] });
  dht_query = some (record { inner = [] });
  auth_store = some (in_file (with_store (Sqlite.new [])));
  identity = 4 ∷ [];
}

started_lem_example : Shown Config.env service
unfolding from_env read_report read_registration read_session_store default new load write_to_file
    assemble
started_lem_example = started_lem service_env Config.env Config.config [] service refl refl
