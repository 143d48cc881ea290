-- ===== src/Auth/Sqlite/Errors.antt =====
-- src/auth/sqlite_store.rs: when a call gives an error.
use h2hc_linker.Base.{
  ℕ, String, ◌≡◌, true, some, arith, inl, inr, Option-cases, Bool-cases, string_eq, nat_eq, ◌⊎◌,
}
use h2hc_linker.Base.Maps.{lookup, has_key}
use h2hc_linker.Ids.{AgentPubKey}
use h2hc_linker.Host.{Host, Fallible-cases}
use h2hc_linker.Auth.SessionStore.{SessionStoreError, err, database}
use h2hc_linker.Auth.SessionStore.Refine.{Failures}
use h2hc_linker.Auth.Sqlite.{
  SqliteSessionStore, CapsJson, fault, add_agent, remove_agent, list_agents, is_agent_allowed,
  get_agent, create_session, validate_session, revoke_session, register_dna_for_agent,
  revoke_sessions_for_agent, session_count, sqlite_store,
}

-- A statement of the call fails with the text of the error.
abbrev pub StatementFails : SqliteSessionStore → SessionStoreError → Type 0
StatementFails s e = (n : ℕ) × (text : String) × (fault s n ≡ some text) × (e ≡ database text)

abbrev pub TokenTaken : String → SqliteSessionStore → Type 0
TokenTaken t s = has_key t s.conn.sessions ≡ true

abbrev pub TablesKept : SqliteSessionStore → SqliteSessionStore → Type 0
TablesKept s s' = s'.conn ≡ s.conn

module _ (host : Host) (json : CapsJson) where
  get_agent_cause :
      (k : AgentPubKey) (s : SqliteSessionStore) (e : SessionStoreError)
      → get_agent host json k s ≡ err e
      → StatementFails s e
  unfolding get_agent
  get_agent_cause k s e h = elim (Option-cases (fault s 0)) [
    | inr (x, f) ↦ (0, x, f, ground (arith, f, h))
    | inl f ↦ elim (Option-cases (lookup (host.agent_text k) s.conn.allowed_agents)) [
      | inl l ↦ absurd (ground (arith, f, l, h))
      | inr (r, l) ↦ absurd (ground (arith, f, l, h))
    ]
  ]

  list_agents_cause :
      (s : SqliteSessionStore) (e : SessionStoreError)
      → list_agents host json s ≡ err e
      → StatementFails s e
  unfolding list_agents
  list_agents_cause s e h = elim (Option-cases (fault s 0)) [
    | inr (x, f) ↦ (0, x, f, ground (arith, f, h))
    | inl f ↦ elim (Option-cases (fault s 1)) [
      | inr (x, g) ↦ (1, x, g, ground (arith, f, g, h))
      | inl g ↦ absurd (ground (arith, f, g, h))
    ]
  ]

  remove_agent_cause :
      (k : AgentPubKey) (s : SqliteSessionStore) (e : SessionStoreError)
      → (remove_agent host json k s).0 ≡ err e
      → StatementFails s e
  unfolding remove_agent
  remove_agent_cause k s e h = elim (Option-cases (fault s 0)) [
    | inr (x, f) ↦ (0, x, f, ground (arith, f, h))
    | inl f ↦ elim (Option-cases (fault s 1)) [
      | inr (x, g) ↦ (1, x, g, ground (arith, f, g, h))
      | inl g ↦ elim (Option-cases (fault s 2)) [
        | inr (x, l) ↦ (2, x, l, ground (arith, f, g, l, h))
        | inl l ↦ absurd (ground (arith, f, g, l, h))
      ]
    ]
  ]

  validate_session_cause :
      (t : String) (s : SqliteSessionStore) (e : SessionStoreError)
      → validate_session host json t s ≡ err e
      → StatementFails s e
  unfolding validate_session
  validate_session_cause t s e h = elim (Option-cases (fault s 0)) [
    | inr (x, f) ↦ (0, x, f, ground (arith, f, h))
    | inl f ↦ elim (Option-cases (lookup t s.conn.sessions)) [
      | inl l ↦ absurd (ground (arith, f, l, h))
      | inr (r, l) ↦ elim (Fallible-cases (host.parse_agent r.agent_pubkey)) [
        | inr (x, p) ↦ absurd (ground (arith, f, l, p, h))
        | inl (k, p) ↦ elim (Option-cases (fault s 1)) [
          | inr (x, g) ↦ (1, x, g, ground (arith, f, l, p, g, h))
          | inl g ↦ elim (Option-cases (fault s 2)) [
            | inr (x, i) ↦ (2, x, i, ground (arith, f, l, p, g, i, h))
            | inl i ↦ absurd (ground (arith, f, l, p, g, i, h))
          ]
        ]
      ]
    ]
  ]

  create_session_cause :
      (t : String) (k : AgentPubKey) (s : SqliteSessionStore) (e : SessionStoreError)
      → (create_session host json t k s).0 ≡ err e
      → (StatementFails s e ⊎ TokenTaken t s) × TablesKept s (create_session host json t k s).1
  unfolding create_session
  create_session_cause t k s e h = elim (Option-cases (fault s 0)) [
    | inr (x, f) ↦ (inl (0, x, f, ground (arith, f, h)), ground (arith, f))
    | inl f ↦ elim (Option-cases (lookup (host.agent_text k) s.conn.allowed_agents)) [
      | inl l ↦ absurd (ground (arith, f, l, h))
      | inr (r, l) ↦ elim (Option-cases (fault s 1)) [
        | inr (x, g) ↦ (inl (1, x, g, ground (arith, f, l, g, h)), ground (arith, f, l, g))
        | inl g ↦ elim (Bool-cases (has_key t s.conn.sessions)) [
          | inl b ↦ (inr b, ground (arith, f, l, g, b))
          | inr b ↦ absurd (ground (arith, f, l, g, b, h))
        ]
      ]
    ]
  ]

  -- A call gives an error only for a statement of it that fails, with the text of that, or, for a new
  -- session, if the token is in the table; and but for `remove_agent` the tables are then as before.
  pub sqlite_store-Failures : Failures (sqlite_store host json) StatementFails TokenTaken TablesKept
  unfolding add_agent is_agent_allowed revoke_session register_dna_for_agent
      revoke_sessions_for_agent session_count
  sqlite_store-Failures = record {
    add_agent_err = λ a s e h. elim (Option-cases (fault s 0)) [
      | inr (x, f) ↦ ((0, x, f, ground (arith, f, h)), ground (arith, f))
      | inl f ↦ absurd (ground (arith, f, h))
    ];
    remove_agent_err = remove_agent_cause;
    list_agents_err = list_agents_cause;
    is_agent_allowed_err = λ k s e h. elim (Option-cases (fault s 0)) [
      | inr (x, f) ↦ (0, x, f, ground (arith, f, h))
      | inl f ↦ absurd (ground (arith, f, h))
    ];
    get_agent_err = get_agent_cause;
    create_session_err = create_session_cause;
    validate_session_err = validate_session_cause;
    revoke_session_err = λ t s e h. elim (Option-cases (fault s 0)) [
      | inr (x, f) ↦ ((0, x, f, ground (arith, f, h)), ground (arith, f))
      | inl f ↦ absurd (ground (arith, f, h))
    ];
    register_dna_err = λ k dna s e h. elim (Option-cases (fault s 0)) [
      | inr (x, f) ↦ ((0, x, f, ground (arith, f, h)), ground (arith, f))
      | inl f ↦ absurd (ground (arith, f, h))
    ];
    revoke_sessions_err = λ k s e h. elim (Option-cases (fault s 0)) [
      | inr (x, f) ↦ ((0, x, f, ground (arith, f, h)), ground (arith, f))
      | inl f ↦ absurd (ground (arith, f, h))
    ];
    session_count_err = λ s e h. elim (Option-cases (fault s 0)) [
      | inr (x, f) ↦ (0, x, f, ground (arith, f, h))
      | inl f ↦ absurd (ground (arith, f, h))
    ];
  }
