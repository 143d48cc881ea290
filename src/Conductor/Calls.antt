-- ===== src/Conductor/Calls.antt =====
-- src/conductor: which cell a zome call reaches, and what happens when a socket breaks.
use h2hc_linker.Base.{
  ℕ, String, ◌≡◌, refl, List, [], ◌∷◌, none, some, arith, ◌==◌, nat_eq, string_eq, nat_beq_iff,
  Option-cases, Bool-cases, inl, inr, ◌⊎◌, ap,
}
use h2hc_linker.Base.Maps.{lookup}
use h2hc_linker.Ids.{DnaHash}
use h2hc_linker.Host.{ok}
use h2hc_linker.Error.{upstream_unavailable, done, failure, LinkerResult, LinkerResult-cases}
use h2hc_linker.Conductor.{
  AdminWebsocket, AppWebsocket, CellId, CellInfo, provisioned, other_cell, AppInfo, Conductor,
  answered, websocket_error, AppConn, or_holochain, find_cell, find_role, find_in_apps, list_apps,
  list_apps_from, admin_socket, app_socket, find_app_with_dna, call_zome,
}

-- The cell stands in a list, as a provisioned one.
abbrev pub CellIn : CellId → List CellInfo → Type 0
CellIn c [] = ⊥
CellIn c (i ∷ cells) = (i ≡ provisioned c) ⊎ CellIn c cells

abbrev pub RoleOf : CellId → List (List CellInfo) → Type 0
RoleOf c [] = ⊥
RoleOf c (cells ∷ roles) = CellIn c cells ⊎ RoleOf c roles

find_cell_lem :
    (dna : DnaHash) (cells : List CellInfo) (c : CellId)
    → find_cell dna cells ≡ some c
    → (c.dna_hash ≡ dna) × CellIn c cells
find_cell_lem dna [] c h = absurd (ground (arith, h))
find_cell_lem dna (other_cell ∷ cells) c h = let (e, i) = find_cell_lem dna cells c h in (e, inr i)
find_cell_lem dna (provisioned d ∷ cells) c h = elim (Bool-cases (d.dna_hash == dna)) [
  | inl e ↦
      let same : d ≡ c = ground (arith, e, h) in
      (ground (arith, same, e, nat_beq_iff d.dna_hash dna), inl (ap provisioned same))
  | inr e ↦ let (f, i) = find_cell_lem dna cells c (ground (arith, e, h)) in (f, inr i)
]

find_role_lem :
    (dna : DnaHash) (roles : List (List CellInfo)) (c : CellId)
    → find_role dna roles ≡ some c
    → (c.dna_hash ≡ dna) × RoleOf c roles
find_role_lem dna [] c h = absurd (ground (arith, h))
find_role_lem dna (cells ∷ roles) c h = elim (Option-cases (find_cell dna cells)) [
  | inl e ↦ let (f, i) = find_role_lem dna roles c (ground (arith, e, h)) in (f, inr i)
  | inr (d, e) ↦ let (f, i) = find_cell_lem dna cells c (ground (arith, e, h)) in (f, inl i)
]

find_in_apps_lem :
    (dna : DnaHash) (apps : List AppInfo) (app : AppInfo) (c : CellId)
    → find_in_apps dna apps ≡ some (app, c)
    → (c.dna_hash ≡ dna) × RoleOf c app.cell_info
find_in_apps_lem dna [] app c h = absurd (ground (arith, h))
find_in_apps_lem dna (a ∷ apps) app c h = elim (Option-cases (find_role dna a.cell_info)) [
  | inl e ↦ find_in_apps_lem dna apps app c (ground (arith, e, h))
  | inr (d, e) ↦
      let same : a ≡ app = ground (arith, e, h) in
      find_role_lem dna app.cell_info c (ground (arith, e, h, same))
]

module _ (conductor : Conductor) where
  find_app_lem :
      (dna : DnaHash) (app : AppConn) (info : AppInfo) (c : CellId)
      → (find_app_with_dna conductor dna app).0 ≡ done (info, c)
      → (c.dna_hash ≡ dna) × RoleOf c info.cell_info
  unfolding find_app_with_dna
  find_app_lem dna app info c h = elim (Option-cases (find_in_apps dna app.app_info_cache)) [
    | inr (found, e) ↦ find_in_apps_lem dna app.app_info_cache info c (ground (arith, e, h))
    | inl e ↦ elim (LinkerResult-cases (list_apps conductor app.admin_conn).0) [
      | inr (x, l) ↦ absurd (ground (arith, e, l, h))
      | inl (apps, l) ↦ elim (Option-cases (find_in_apps dna apps)) [
        | inl n ↦ absurd (ground (arith, e, l, n, h))
        | inr (found, n) ↦ find_in_apps_lem dna apps info c (ground (arith, e, l, n, h))
      ]
    ]
  ]

  -- A zome call that answers was made over some socket on a provisioned cell with the DNA of the
  -- call, with the zome, the function and the payload as given, and the answer is that of the cell.
  pub call_zome_lem :
      (dna : DnaHash) (zome_name fn_name : String) (payload : List ℕ) (app : AppConn)
      (result : List ℕ)
      → (call_zome conductor dna zome_name fn_name payload app).0 ≡ done result
      → (ws : AppWebsocket) × (info : AppInfo) × (cell : CellId) × (cell.dna_hash ≡ dna)
        × RoleOf cell info.cell_info
        × (conductor.call_zome ws cell zome_name fn_name payload ≡ ok result)
  unfolding call_zome
  call_zome_lem dna zome_name fn_name payload app result h =
      elim (LinkerResult-cases (find_app_with_dna conductor dna app).0) [
        | inr (e, f) ↦ absurd (ground (arith, f, h))
        | inl (found, f) ↦
            let app1 = (find_app_with_dna conductor dna app).1 in
            let (e, i) = find_app_lem dna app found.0 found.1 f in
            elim (LinkerResult-cases (app_socket conductor found.0.installed_app_id app1).0) [
              | inr (x, s) ↦ absurd (ground (arith, f, s, h))
              | inl (ws, s) ↦ (ws, found.0, found.1, e, i, ground (arith, f, s, h))
            ]
      ]

  call_cached_lem :
      (dna : DnaHash) (zome_name fn_name : String) (payload : List ℕ) (app : AppConn)
      (info : AppInfo) (cell : CellId) (ws : AppWebsocket)
      → find_in_apps dna app.app_info_cache ≡ some (info, cell)
      → lookup info.installed_app_id app.connections ≡ some ws
      → call_zome conductor dna zome_name fn_name payload app
        ≡ (or_holochain (conductor.call_zome ws cell zome_name fn_name payload), app)
  unfolding call_zome find_app_with_dna app_socket
  call_cached_lem dna zome_name fn_name payload app info cell ws f c =
      let found : find_app_with_dna conductor dna app ≡ (done (info, cell), app) =
        rw (find_app_with_dna, f) refl in
      let socket : app_socket conductor info.installed_app_id app ≡ (done ws, app) =
        rw (app_socket, c) refl in
      ground (arith, found, socket)

  -- The admin socket, by contrast, is replaced when it breaks: if the cached one breaks at the first
  -- attempt, the second goes over a new one, which is kept if it answers, and if that breaks as well
  -- the conductor is called unavailable and none is kept.
  pub list_apps_lem :
      (old new : AdminWebsocket)
      → conductor.list_apps 0 old ≡ websocket_error
      → conductor.connect 1 ≡ some new
      → ((apps : List AppInfo)
          → conductor.list_apps 1 new ≡ answered apps
          → list_apps conductor (record { handle = some old })
            ≡ (done apps, record { handle = some new }))
        × (conductor.list_apps 1 new ≡ websocket_error
            → list_apps conductor (record { handle = some old })
              ≡ (failure upstream_unavailable, record { handle = none }))
  unfolding list_apps list_apps_from admin_socket
  list_apps_lem old new a b = (λ apps c. ground (arith, a, b, c), λ c. ground (arith, a, b, c))

-- A zome call, with the conductor as it is at the time.
pub record TimedCall : Type 0 where
  pub conductor : Conductor
  pub zome_name : String
  pub fn_name : String
  pub payload : List ℕ

-- The answers of calls to a DNA, one after the other.
abbrev pub call_all : DnaHash → List TimedCall → AppConn → List (LinkerResult (List ℕ)) × AppConn
call_all dna [] app = ([], app)
call_all dna (c ∷ cs) app =
    let (result, app1) = call_zome c.conductor dna c.zome_name c.fn_name c.payload app in
    let (results, app2) = call_all dna cs app1 in (result ∷ results, app2)

-- What the calls answer if they are made on a cell over a socket.
abbrev pub answers_over : AppWebsocket → CellId → List TimedCall → List (LinkerResult (List ℕ))
answers_over ws cell [] = []
answers_over ws cell (c ∷ cs) =
    or_holochain (c.conductor.call_zome ws cell c.zome_name c.fn_name c.payload)
    ∷ answers_over ws cell cs

-- Once the app of a DNA and its socket are cached, all further calls for the DNA go to the same cell
-- over this same socket, and both caches stay as they are, whatever the conductor answers from call
-- to call: an error drops neither, so that no later call connects again.
pub call_zome_cached :
    (dna : DnaHash) (calls : List TimedCall) (app : AppConn) (info : AppInfo) (cell : CellId)
    (ws : AppWebsocket)
    → find_in_apps dna app.app_info_cache ≡ some (info, cell)
    → lookup info.installed_app_id app.connections ≡ some ws
    → call_all dna calls app ≡ (answers_over ws cell calls, app)
call_zome_cached dna [] app info cell ws f c = refl
call_zome_cached dna (call ∷ calls) app info cell ws f c =
    let first =
      call_cached_lem call.conductor dna call.zome_name call.fn_name call.payload app info cell ws f
        c in
    let rest = call_zome_cached dna calls app info cell ws f c in ground (arith, first, rest)
