-- ===== src/Conductor.antt =====
-- src/conductor: the connections to a conductor. What the conductor and its client answer is an
-- argument; the sockets of the two interfaces are numbers. A check under a read lock that is repeated
-- under the write lock is one step.
pub mod Calls
use h2hc_linker.Base.{
  ℕ, zero, suc, String, Bool, true, false, List, [], ◌∷◌, Option, none, some, if◌then◌else◌, ◌==◌,
  nat_eq, string_eq,
}
use h2hc_linker.Base.Maps.{Map, lookup, insert}
use h2hc_linker.Ids.{AgentPubKey, DnaHash}
use h2hc_linker.Host.{Fallible, ok, err, with_error}
use h2hc_linker.Error.{
  LinkerError, holochain_error, upstream_unavailable, not_found, LinkerResult, done, failure,
}

abbrev pub AdminWebsocket : Type 0
AdminWebsocket = ℕ

abbrev pub AppWebsocket : Type 0
AppWebsocket = ℕ

pub record CellId : Type 0 where
  pub dna_hash : DnaHash
  pub agent_pubkey : AgentPubKey

pub data CellInfo : Type 0 where
  provisioned : CellId → CellInfo
  other_cell : CellInfo

-- The cells of each role.
pub record AppInfo : Type 0 where
  pub installed_app_id : String
  pub cell_info : List (List CellInfo)

-- An answer of the admin interface; only a broken socket is told apart.
pub data AdminAnswer (A : Type 0) : Type 0 where
  answered : A → AdminAnswer A
  websocket_error : AdminAnswer A
  api_error : String → AdminAnswer A

pub record AppInterface : Type 0 where
  pub port : ℕ
  pub is_allowed : Bool

-- `connect` and `list_apps` may answer differently at the second attempt.
pub record Conductor : Type 0 where
  pub connect : ℕ → Option AdminWebsocket
  pub list_apps : ℕ → AdminWebsocket → AdminAnswer (List AppInfo)
  pub issue_app_auth_token : AdminWebsocket → String → Fallible ℕ
  pub list_app_interfaces : AdminWebsocket → Fallible (List AppInterface)
  pub attach_app_interface : AdminWebsocket → Fallible ℕ
  -- with a port and a token; with the cells of the app
  pub connect_app : ℕ → ℕ → Option (AppWebsocket × List (List CellInfo))
  pub authorize_signing_credentials : AdminWebsocket → CellId → Fallible (Unit {0})
  -- with the cell, the zome, the function and the payload
  pub call_zome : AppWebsocket → CellId → String → String → List ℕ → Fallible (List ℕ)
  pub dna_text : DnaHash → String

pub record AdminConn : Type 0 where
  pub handle : Option AdminWebsocket

-- The address and the timeout only reach the client.
pub record AppConn : Type 0 where
  pub admin_conn : AdminConn
  pub connections : Map String AppWebsocket
  pub app_info_cache : List AppInfo

unfoldable pub new : AppConn
new = record { admin_conn = record { handle = none }; connections = []; app_info_cache = [] }

-- `map_err(LinkerError::HolochainError)`
abbrev pub or_holochain : {A : Type 0} → Fallible A → LinkerResult A
or_holochain (ok a) = done a
or_holochain (err e) = failure (holochain_error e)

-- The first cell with the DNA, of those that are provisioned.
abbrev pub find_cell : DnaHash → List CellInfo → Option CellId
find_cell dna [] = none
find_cell dna (other_cell ∷ cells) = find_cell dna cells
find_cell dna (provisioned cell_id ∷ cells) =
    let rest = find_cell dna cells in if cell_id.dna_hash == dna then some cell_id else rest

abbrev pub find_role : DnaHash → List (List CellInfo) → Option CellId
find_role dna [] = none
find_role dna (cells ∷ roles) = elim (find_cell dna cells) [
  | some cell_id ↦ some cell_id
  | none ↦ find_role dna roles
]

abbrev pub find_in_apps : DnaHash → List AppInfo → Option (AppInfo × CellId)
find_in_apps dna [] = none
find_in_apps dna (app ∷ apps) = elim (find_role dna app.cell_info) [
  | some cell_id ↦ some (app, cell_id)
  | none ↦ find_in_apps dna apps
]

-- The first interface that allows the origin.
abbrev pub first_allowed : List AppInterface → Option ℕ
first_allowed [] = none
first_allowed (i ∷ interfaces) = if i.is_allowed then some i.port else first_allowed interfaces

module _ (conductor : Conductor) where
  -- `AdminConn::get_or_connect`, at an attempt.
  unfoldable pub admin_socket : ℕ → AdminConn → LinkerResult AdminWebsocket × AdminConn
  admin_socket attempt admin = elim admin.handle [
    | some ws ↦ (done ws, admin)
    | none ↦ elim (conductor.connect attempt) [
      | some ws ↦ (done ws, record { handle = some ws })
      | none ↦ (failure upstream_unavailable, admin)
    ]
  ]

  -- The attempts that are left, from this one on.
  unfoldable pub list_apps_from : ℕ → ℕ → AdminConn → LinkerResult (List AppInfo) × AdminConn
  unfolding admin_socket
  list_apps_from zero attempt admin = (failure upstream_unavailable, admin)
  list_apps_from (suc left) attempt admin =
      let retry = list_apps_from left (suc attempt) (record { handle = none }) in
      let (socket, admin') = admin_socket attempt admin in
      elim socket [
        | failure e ↦ (failure e, admin')
        | done ws ↦ elim (conductor.list_apps attempt ws) [
          | answered apps ↦ (done apps, admin')
          | websocket_error ↦ retry
          | api_error e ↦ (failure (holochain_error e), admin')
        ]
      ]

  unfoldable pub list_apps : AdminConn → LinkerResult (List AppInfo) × AdminConn
  unfolding list_apps_from
  list_apps admin = list_apps_from 2 0 admin

  unfoldable pub get_app_port : AdminWebsocket → LinkerResult ℕ
  get_app_port ws = elim (conductor.list_app_interfaces ws) [
    | err e ↦ failure (holochain_error e)
    | ok interfaces ↦ elim (first_allowed interfaces) [
      | some port ↦ done port
      | none ↦ or_holochain (conductor.attach_app_interface ws)
    ]
  ]

  abbrev pub authorize_cells : AdminWebsocket → List CellInfo → LinkerResult (Unit {0})
  authorize_cells ws [] = done tt
  authorize_cells ws (other_cell ∷ cells) = authorize_cells ws cells
  authorize_cells ws (provisioned cell_id ∷ cells) =
      elim (conductor.authorize_signing_credentials ws cell_id) [
        | err e ↦ failure (holochain_error e)
        | ok _ ↦ authorize_cells ws cells
      ]

  abbrev pub authorize_roles : AdminWebsocket → List (List CellInfo) → LinkerResult (Unit {0})
  authorize_roles ws [] = done tt
  authorize_roles ws (cells ∷ roles) = elim (authorize_cells ws cells) [
    | failure e ↦ failure e
    | done _ ↦ authorize_roles ws roles
  ]

  -- `connect_app` once the admin socket is there.
  unfoldable pub connect_over : AdminWebsocket → String → LinkerResult AppWebsocket
  unfolding get_app_port
  connect_over ws installed_app_id = elim (conductor.issue_app_auth_token ws installed_app_id) [
    | err e ↦ failure (holochain_error e)
    | ok token ↦ elim (get_app_port ws) [
      | failure e ↦ failure e
      | done port ↦ elim (conductor.connect_app port token) [
        | none ↦ failure upstream_unavailable
        | some made ↦ elim (authorize_roles ws made.1) [
          | failure e ↦ failure e
          | done _ ↦ done made.0
        ]
      ]
    ]
  ]

  unfoldable pub connect_app : String → AdminConn → LinkerResult AppWebsocket × AdminConn
  unfolding admin_socket connect_over
  connect_app installed_app_id admin =
      let (socket, admin') = admin_socket 0 admin in
      elim socket [
        | failure e ↦ (failure e, admin')
        | done ws ↦ (connect_over ws installed_app_id, admin')
      ]

  -- `AppConn::get_or_connect`.
  unfoldable pub app_socket : String → AppConn → LinkerResult AppWebsocket × AppConn
  app_socket installed_app_id app = elim (lookup installed_app_id app.connections) [
    | some ws ↦ (done ws, app)
    | none ↦
        let (socket, admin') = connect_app installed_app_id app.admin_conn in
        elim socket [
          | failure e ↦ (failure e, record app { admin_conn = admin' })
          | done ws ↦ (
            done ws,
            record app {
              admin_conn = admin';
              connections = insert installed_app_id ws app.connections;
            },
          )
        ]
  ]

  unfoldable pub find_app_with_dna : DnaHash → AppConn → LinkerResult (AppInfo × CellId) × AppConn
  find_app_with_dna dna app = elim (find_in_apps dna app.app_info_cache) [
    | some found ↦ (done found, app)
    | none ↦
        let (listed, admin') = list_apps app.admin_conn in
        elim listed [
          | failure e ↦ (failure e, record app { admin_conn = admin' })
          | done apps ↦ (
            elim (find_in_apps dna apps) [
              | some found ↦ done found
              | none ↦
                  failure (not_found (with_error "No app found with DNA " (conductor.dna_text dna)))
            ],
            record app { admin_conn = admin'; app_info_cache = apps },
          )
        ]
  ]

  unfoldable pub call_zome :
      DnaHash → String → String → List ℕ → AppConn → LinkerResult (List ℕ) × AppConn
  call_zome dna zome_name fn_name payload app =
      let (found, app1) = find_app_with_dna dna app in
      elim found [
        | failure e ↦ (failure e, app1)
        | done cell ↦
            let (socket, app2) = app_socket cell.0.installed_app_id app1 in
            elim socket [
              | failure e ↦ (failure e, app2)
              | done ws ↦
                  (or_holochain (conductor.call_zome ws cell.1 zome_name fn_name payload), app2)
            ]
      ]

  unfoldable pub call_dht_util :
      DnaHash → String → List ℕ → AppConn → LinkerResult (List ℕ) × AppConn
  unfolding call_zome
  call_dht_util dna fn_name payload app = call_zome dna "dht_util" fn_name payload app
