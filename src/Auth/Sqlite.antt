-- ===== src/Auth/Sqlite.antt =====
-- src/auth/sqlite_store.rs: the backend on SQLite. The three tables are lists of rows, and each SQL
-- statement is the function on them that it says; a statement that is executed may fail instead. A
-- read of single rows after that does not fail here.
pub mod Tables
pub mod Laws
pub mod Writes
pub mod Errors
pub mod Refinement
use h2hc_linker.Base.{
  ℕ, ◌-◌, String, Bool, true, false, not, ◌&&◌, List, [], ◌∷◌, Option, none, some, if◌then◌else◌,
  ◌==◌, is_some, string_eq, nat_eq, pair_eq,
}
use h2hc_linker.Base.Lists.{length, filter, set_insert}
use h2hc_linker.Base.Maps.{Map, lookup, has_key, insert, remove, retain}
use h2hc_linker.Ids.{AgentPubKey, DnaHash}
use h2hc_linker.Host.{Host, Fallible}
use h2hc_linker.Host
use h2hc_linker.Auth.Types.{Capability, AllowedAgent, SessionInfo, SessionToken}
use h2hc_linker.Auth.SessionStore.{SessionStore, SessionStoreResult, ok, err, database}

pub record AgentRow : Type 0 where
  pub capabilities : String
  pub label : Option String

pub record SessionRow : Type 0 where
  pub agent_pubkey : String
  pub capabilities : String

pub record DnaRow : Type 0 where
  pub token : String
  pub dna_hash : String
  pub agent_pubkey : String

-- The tables `allowed_agents` and `sessions` by their primary keys, and `session_dnas`.
pub record Connection : Type 0 where
  pub allowed_agents : Map String AgentRow
  pub sessions : Map String SessionRow
  pub session_dnas : List DnaRow

-- Which statements of a call fail, with the text of the error, by their place in the call.
abbrev pub Faults : Type 0
Faults = ℕ → Option String

-- With the faults of the calls to come; a call that writes goes on to the next.
pub record SqliteSessionStore : Type 0 where
  pub conn : Connection
  pub faults : List Faults

unfoldable pub fault : SqliteSessionStore → Faults
fault s = elim s.faults [ [] ↦ λ n. none | f ∷ rest ↦ f ]

abbrev pub next : Connection → SqliteSessionStore → SqliteSessionStore
next conn s = record { conn = conn; faults = elim s.faults [ [] ↦ [] | f ∷ rest ↦ rest ] }

-- The capabilities as JSON (serde).
pub record CapsJson : Type 0 where
  pub to_json : List Capability → String
  pub from_json : String → List Capability

-- `init` on an empty file.
unfoldable pub new : List Faults → SqliteSessionStore
new faults = record {
  conn = record { allowed_agents = []; sessions = []; session_dnas = [] };
  faults = faults;
}

-- `ON DELETE CASCADE`: the rows of tokens that are in `sessions`.
abbrev pub cascade : Map String SessionRow → List DnaRow → List DnaRow
cascade sessions rows = filter (λ r. has_key r.token sessions) rows

abbrev pub delete_sessions : Map String SessionRow → Connection → Connection
delete_sessions kept c = record c { sessions = kept; session_dnas = cascade kept c.session_dnas }

abbrev pub other_agent : String → SessionRow → Bool
other_agent pk r = not (r.agent_pubkey == pk)

abbrev pub has_row : String → String → List DnaRow → Bool
has_row token dna [] = false
has_row token dna (r ∷ rows) =
    let rest = has_row token dna rows in
    if r.token == token && r.dna_hash == dna then true else rest

-- `INSERT OR IGNORE INTO session_dnas … SELECT token … FROM sessions WHERE agent_pubkey = …`
abbrev pub insert_dnas : String → String → Map String SessionRow → List DnaRow → List DnaRow
insert_dnas dna pk [] rows = rows
insert_dnas dna pk ((token, r) ∷ sessions) rows =
    let rest = insert_dnas dna pk sessions rows in
    if r.agent_pubkey == pk && not (has_row token dna rest)
    then record { token = token; dna_hash = dna; agent_pubkey = pk } ∷ rest
    else rest

-- The texts of `SELECT dna_hash … WHERE token = …`, parsed into a set; the others are skipped.
abbrev pub add_parsed : Fallible DnaHash → List DnaHash → List DnaHash
add_parsed (Host.ok dna) rest = set_insert dna rest
add_parsed (Host.err e) rest = rest

abbrev pub dnas_of : Host → String → List DnaRow → List DnaHash
dnas_of host token [] = []
dnas_of host token (r ∷ rows) =
    let rest = dnas_of host token rows in
    if r.token == token then add_parsed (host.parse_dna r.dna_hash) rest else rest

module _ (host : Host) (json : CapsJson) where
  unfoldable pub add_agent :
      AllowedAgent → SqliteSessionStore → SessionStoreResult (Unit {0}) × SqliteSessionStore
  add_agent agent s = elim (fault s 0) [
    | some e ↦ (err (database e), next s.conn s)
    | none ↦
        let row : AgentRow = record {
          capabilities = json.to_json agent.capabilities;
          label = agent.label;
        } in
        (
          ok tt,
          next
              (record s.conn {
                allowed_agents =
                    insert (host.agent_text agent.agent_pubkey) row s.conn.allowed_agents;
              })
              s,
        )
  ]

  -- The three `DELETE` statements; after a failure the earlier ones stand.
  unfoldable pub remove_agent :
      AgentPubKey → SqliteSessionStore → SessionStoreResult Bool × SqliteSessionStore
  remove_agent agent_pubkey s =
      let pk = host.agent_text agent_pubkey in
      let no_dnas = record s.conn {
        session_dnas = filter (λ r. not (r.agent_pubkey == pk)) s.conn.session_dnas;
      } in
      let no_sessions = delete_sessions (retain (other_agent pk) no_dnas.sessions) no_dnas in
      elim (fault s 0) [
        | some e ↦ (err (database e), next s.conn s)
        | none ↦ elim (fault s 1) [
          | some e ↦ (err (database e), next no_dnas s)
          | none ↦ elim (fault s 2) [
            | some e ↦ (err (database e), next no_sessions s)
            | none ↦ (
              ok (has_key pk no_sessions.allowed_agents),
              next (record no_sessions { allowed_agents = remove pk no_sessions.allowed_agents }) s,
            )
          ]
        ]
      ]

  abbrev pub agent_of : AgentPubKey → AgentRow → AllowedAgent
  agent_of agent_pubkey r = record {
    agent_pubkey = agent_pubkey;
    capabilities = json.from_json r.capabilities;
    label = r.label;
  }

  abbrev pub add_agent_row : Fallible AgentPubKey → AgentRow → List AllowedAgent → List AllowedAgent
  add_agent_row (Host.ok agent_pubkey) r rest = agent_of agent_pubkey r ∷ rest
  add_agent_row (Host.err e) r rest = rest

  abbrev pub agent_rows : Map String AgentRow → List AllowedAgent
  agent_rows [] = []
  agent_rows ((pk, r) ∷ rows) = add_agent_row (host.parse_agent pk) r (agent_rows rows)

  -- The statement is prepared, and then queried.
  unfoldable pub list_agents : SqliteSessionStore → SessionStoreResult (List AllowedAgent)
  list_agents s = elim (fault s 0) [
    | some e ↦ err (database e)
    | none ↦ elim (fault s 1) [
      | some e ↦ err (database e)
      | none ↦ ok (agent_rows s.conn.allowed_agents)
    ]
  ]

  unfoldable pub is_agent_allowed : AgentPubKey → SqliteSessionStore → SessionStoreResult Bool
  is_agent_allowed agent_pubkey s = elim (fault s 0) [
    | some e ↦ err (database e)
    | none ↦ ok (has_key (host.agent_text agent_pubkey) s.conn.allowed_agents)
  ]

  unfoldable pub get_agent :
      AgentPubKey → SqliteSessionStore → SessionStoreResult (Option AllowedAgent)
  get_agent agent_pubkey s = elim (fault s 0) [
    | some e ↦ err (database e)
    | none ↦ elim (lookup (host.agent_text agent_pubkey) s.conn.allowed_agents) [
      | none ↦ ok none
      | some r ↦ ok (some (agent_of agent_pubkey r))
    ]
  ]

  -- A token that is in the table violates the primary key.
  unfoldable pub create_session :
      String
      → AgentPubKey
      → SqliteSessionStore
      → SessionStoreResult (Option SessionToken) × SqliteSessionStore
  create_session token agent_pubkey s =
      let pk = host.agent_text agent_pubkey in
      elim (fault s 0) [
        | some e ↦ (err (database e), next s.conn s)
        | none ↦ elim (lookup pk s.conn.allowed_agents) [
          | none ↦ (ok none, next s.conn s)
          | some r ↦ elim (fault s 1) [
            | some e ↦ (err (database e), next s.conn s)
            | none ↦
                if has_key token s.conn.sessions
                then (err (database "UNIQUE constraint failed: sessions.token"), next s.conn s)
                else (
                  ok (some (record { text = token })),
                  next
                      (record s.conn {
                        sessions =
                            insert token
                              (record { agent_pubkey = pk; capabilities = r.capabilities })
                              s.conn.sessions;
                      })
                      s,
                )
          ]
        ]
      ]

  abbrev pub info_of : String → List DnaRow → AgentPubKey → SessionRow → SessionInfo
  info_of token rows agent_pubkey r = record {
    agent_pubkey = agent_pubkey;
    capabilities = json.from_json r.capabilities;
    registered_dnas = dnas_of host token rows;
  }

  unfoldable pub validate_session :
      String → SqliteSessionStore → SessionStoreResult (Option SessionInfo)
  validate_session token s = elim (fault s 0) [
    | some e ↦ err (database e)
    | none ↦ elim (lookup token s.conn.sessions) [
      | none ↦ ok none
      | some r ↦ elim (host.parse_agent r.agent_pubkey) [
        | Host.err e ↦ ok none
        | Host.ok agent_pubkey ↦ elim (fault s 1) [
          | some e ↦ err (database e)
          | none ↦ elim (fault s 2) [
            | some e ↦ err (database e)
            | none ↦ ok (some (info_of token s.conn.session_dnas agent_pubkey r))
          ]
        ]
      ]
    ]
  ]

  unfoldable pub revoke_session :
      String → SqliteSessionStore → SessionStoreResult Bool × SqliteSessionStore
  revoke_session token s = elim (fault s 0) [
    | some e ↦ (err (database e), next s.conn s)
    | none ↦ (
      ok (has_key token s.conn.sessions),
      next (delete_sessions (remove token s.conn.sessions) s.conn) s,
    )
  ]

  unfoldable pub register_dna_for_agent :
      AgentPubKey
      → DnaHash
      → SqliteSessionStore
      → SessionStoreResult (Unit {0}) × SqliteSessionStore
  register_dna_for_agent agent_pubkey dna s = elim (fault s 0) [
    | some e ↦ (err (database e), next s.conn s)
    | none ↦ (
      ok tt,
      next
          (record s.conn {
            session_dnas =
                insert_dnas (host.dna_text dna) (host.agent_text agent_pubkey) s.conn.sessions
                  s.conn.session_dnas;
          })
          s,
    )
  ]

  unfoldable pub revoke_sessions_for_agent :
      AgentPubKey → SqliteSessionStore → SessionStoreResult ℕ × SqliteSessionStore
  revoke_sessions_for_agent agent_pubkey s =
      let kept = retain (other_agent (host.agent_text agent_pubkey)) s.conn.sessions in
      elim (fault s 0) [
        | some e ↦ (err (database e), next s.conn s)
        | none ↦ (ok (length s.conn.sessions - length kept), next (delete_sessions kept s.conn) s)
      ]

  unfoldable pub session_count : SqliteSessionStore → SessionStoreResult ℕ
  session_count s = elim (fault s 0) [
    | some e ↦ err (database e)
    | none ↦ ok (length s.conn.sessions)
  ]

  abbrev pub sqlite_store : SessionStore SqliteSessionStore
  sqlite_store = record {
    add_agent = add_agent;
    remove_agent = remove_agent;
    list_agents = list_agents;
    is_agent_allowed = is_agent_allowed;
    get_agent = get_agent;
    create_session = create_session;
    validate_session = validate_session;
    revoke_session = revoke_session;
    register_dna_for_agent = register_dna_for_agent;
    revoke_sessions_for_agent = revoke_sessions_for_agent;
    session_count = session_count;
  }
