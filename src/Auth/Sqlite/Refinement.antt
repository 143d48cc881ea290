-- ===== src/Auth/Sqlite/Refinement.antt =====
-- src/auth/sqlite_store.rs: the backend on SQLite refines the abstract store, whichever statements
-- fail.
use mathlib.Core.Option
use h2hc_linker.Base.{
  String, ◌≡◌, refl, [], none, some, arith, is_some, ◌==◌, string_eq, nat_eq, eq_iff, inl, inr,
  Option-cases, Bool-cases, subst,
}
use h2hc_linker.Base.Maps.{
  lookup, insert, remove, lookup-insert, lookup-remove, insert-Unique, remove-Unique,
}
use h2hc_linker.Ids.{AgentPubKey, DnaHash}
use h2hc_linker.Host.{Host, Fallible-cases}
use h2hc_linker.Auth.SessionStore.Spec.{
  update, grant_dna, new_session, spec_create_session, spec_revoke_session, spec_register_dna,
}
use h2hc_linker.Auth.SessionStore.Refine.{Below, Writes, Reads, Refines, Failures}
use h2hc_linker.Auth.Sqlite.{
  AgentRow, SessionRow, SqliteSessionStore, CapsJson, fault, next, cascade, insert_dnas, dnas_of,
  agent_of, is_agent_allowed, get_agent, create_session, validate_session, revoke_session,
  register_dna_for_agent, sqlite_store,
}
use h2hc_linker.Auth.Sqlite.Tables.{
  Owned-cascade, Owned-insert, Owned-insert_dnas, dnas_of-cascade, dnas_of-absent,
  dnas_of-insert_dnas,
}
use h2hc_linker.Auth.Sqlite.Laws.{
  ReadsBack, IsValid, session_in, view, text_eq, session_in-named, unchanged-Below,
  unchanged-IsValid,
}
use h2hc_linker.Auth.Sqlite.Laws.{add_agent-Writes}
use h2hc_linker.Auth.Sqlite.Errors.{StatementFails, TokenTaken, TablesKept, sqlite_store-Failures}
use h2hc_linker.Auth.Sqlite.Writes.{remove_agent-Writes, revoke_sessions-Writes}

module _ (host : Host) (json : CapsJson) (back : ReadsBack host json) where
  is_agent_allowed-Reads :
      (k : AgentPubKey) (s : SqliteSessionStore)
      → Reads (is_some ((view host json s).agent k)) (is_agent_allowed host json k s)
  unfolding is_agent_allowed
  is_agent_allowed-Reads k s = elim (Option-cases (fault s 0)) [
    | inr (e, f) ↦ rw (f, is_agent_allowed) tt
    | inl f ↦
        rw (f, is_agent_allowed) (ground (arith, lookup (host.agent_text k) s.conn.allowed_agents))
  ]

  get_agent-Reads :
      (k : AgentPubKey) (s : SqliteSessionStore)
      → Reads ((view host json s).agent k) (get_agent host json k s)
  unfolding get_agent
  get_agent-Reads k s = elim (Option-cases (fault s 0)) [
    | inr (e, f) ↦ rw (f, get_agent) tt
    | inl f ↦ elim (Option-cases (lookup (host.agent_text k) s.conn.allowed_agents)) [
      | inl e ↦ rw (f, get_agent, e) refl
      | inr (r, e) ↦ rw (f, get_agent, e) refl
    ]
  ]

  validate_session-Reads :
      (t : String) (s : SqliteSessionStore)
      → Reads ((view host json s).session t) (validate_session host json t s)
  unfolding validate_session
  validate_session-Reads t s = elim (Option-cases (fault s 0)) [
    | inr (e, f) ↦ rw (f, validate_session) tt
    | inl f ↦ elim (Option-cases (lookup t s.conn.sessions)) [
      | inl e ↦ rw (f, validate_session, e) refl
      | inr (r, e) ↦ elim (Fallible-cases (host.parse_agent r.agent_pubkey)) [
        | inr (x, p) ↦ rw (f, validate_session, e, p) refl
        | inl (k, p) ↦ elim (Option-cases (fault s 1)) [
          | inr (x, g) ↦ rw (f, validate_session, e, p, g) tt
          | inl g ↦ elim (Option-cases (fault s 2)) [
            | inr (x, l) ↦ rw (f, validate_session, e, p, g, l) tt
            | inl l ↦ rw (f, validate_session, e, p, g, l) refl
          ]
        ]
      ]
    ]
  ]

  session_in-remove :
      (t u : String) (s : SqliteSessionStore)
      → session_in host json u
          (cascade (remove t s.conn.sessions) s.conn.session_dnas)
          (lookup u (remove t s.conn.sessions))
        ≡ update t none (view host json s).session u
  session_in-remove t u s =
      let kept = remove t s.conn.sessions in
      let at = lookup-remove t u s.conn.sessions in
      elim (Bool-cases (t == u)) [
        | inl q ↦ rw at (ground (arith, q))
        | inr q ↦
            let same : lookup u kept ≡ lookup u s.conn.sessions = ground (arith, at, q) in
            rw same (elim (Option-cases (lookup u s.conn.sessions)) [
              | inl e ↦ rw e (ground (arith, q, e))
              | inr (r, e) ↦
                  let read =
                    dnas_of-cascade host u kept s.conn.session_dnas (ground (arith, same, e)) in
                  elim (Fallible-cases (host.parse_agent r.agent_pubkey)) [
                    | inr (x, p) ↦ rw (e, p) (ground (arith, q, e, p))
                    | inl (k, p) ↦ rw (e, p, read) (ground (arith, q, e, p))
                  ]
            ])
      ]

  revoke_session-Writes :
      (t : String) (s : SqliteSessionStore)
      → IsValid host s
      → Writes
          (IsValid host)
          (view host json)
          s
          (spec_revoke_session t (view host json s))
          (revoke_session host json t s)
  unfolding revoke_session
  revoke_session-Writes t s v = elim (Option-cases (fault s 0)) [
    | inr (e, f) ↦
        rw (f, revoke_session)
          (unchanged-IsValid host json back s v, unchanged-Below host json back s)
    | inl f ↦
        let kept = remove t s.conn.sessions in
        rw (f, revoke_session)
          (
            record {
              agents_unique = v.agents_unique;
              sessions_unique = remove-Unique t s.conn.sessions v.sessions_unique;
              named = λ u r h. v.named u r (ground (arith, h, lookup-remove t u s.conn.sessions));
              owned =
                  Owned-cascade kept s.conn.sessions s.conn.session_dnas
                    (λ u r h. ground (arith, h, lookup-remove t u s.conn.sessions)) v.owned;
            },
            elim (Option-cases (lookup t s.conn.sessions)) [
              | inl e ↦ rw e refl
              | inr (r, e) ↦
                  let (k, n) = v.named t r e in
                  rw (e, session_in-named host json back t s.conn.session_dnas r k n) refl
            ],
            λ j. record {
              agent = (view host json s).agent;
              session = λ u. session_in-remove t u s j;
            },
          )
  ]

  session_in-insert_dnas :
      (k : AgentPubKey) (dna : DnaHash) (t : String) (s : SqliteSessionStore)
      → IsValid host s
      → let rows =
          insert_dnas (host.dna_text dna) (host.agent_text k) s.conn.sessions s.conn.session_dnas in
        session_in host json t rows (lookup t s.conn.sessions)
        ≡ Option.map (grant_dna k dna) ((view host json s).session t)
  session_in-insert_dnas k dna t s v = elim (Option-cases (lookup t s.conn.sessions)) [
    | inl e ↦ rw e refl
    | inr (r, e) ↦
        let (k', n) = v.named t r e in
        let (_, granted) =
          dnas_of-insert_dnas host t (host.dna_text dna) (host.agent_text k) dna s.conn.sessions
            s.conn.session_dnas (back.dnas dna) v.sessions_unique in
        elim (Bool-cases (k' == k)) [
          | inl q ↦
              rw (e, n, back.agents k')
                (ground (arith, q, granted r e, n, text_eq host json back k' k))
          | inr q ↦
              rw (e, n, back.agents k')
                (ground (arith, q, granted r e, n, text_eq host json back k' k))
        ]
  ]

  register_dna-Writes :
      (k : AgentPubKey) (dna : DnaHash) (s : SqliteSessionStore)
      → IsValid host s
      → Writes
          (IsValid host)
          (view host json)
          s
          (spec_register_dna k dna (view host json s))
          (register_dna_for_agent host json k dna s)
  unfolding register_dna_for_agent
  register_dna-Writes k dna s v = elim (Option-cases (fault s 0)) [
    | inr (e, f) ↦
        rw (f, register_dna_for_agent)
          (unchanged-IsValid host json back s v, unchanged-Below host json back s)
    | inl f ↦
        rw (f, register_dna_for_agent)
          (
            record {
              agents_unique = v.agents_unique;
              sessions_unique = v.sessions_unique;
              named = v.named;
              owned =
                  Owned-insert_dnas (host.dna_text dna) (host.agent_text k) s.conn.sessions
                    s.conn.sessions s.conn.session_dnas v.sessions_unique (λ t r h. h) v.owned;
            },
            refl,
            λ j. record {
              agent = (view host json s).agent;
              session = λ t. session_in-insert_dnas k dna t s v j;
            },
          )
  ]

  -- A session of no DNA, since no row has its token.
  session_in-insert :
      (t u : String) (k : AgentPubKey) (r : AgentRow) (s : SqliteSessionStore)
      → IsValid host s
      → lookup t s.conn.sessions ≡ none
      → session_in host json u s.conn.session_dnas (
          lookup u (
            insert t
              (record { agent_pubkey = host.agent_text k; capabilities = r.capabilities })
              s.conn.sessions))
        ≡ update t (some (new_session (agent_of host json k r) k)) (view host json s).session u
  session_in-insert t u k r s v e =
      let row : SessionRow = record {
        agent_pubkey = host.agent_text k;
        capabilities = r.capabilities;
      } in
      rw (lookup-insert t u row s.conn.sessions) (elim (Bool-cases (t == u)) [
        | inr q ↦ ground (arith, q)
        | inl q ↦
            let same : t ≡ u = ground (arith, q, eq_iff t u) in
            let none_read =
              subst (λ x. dnas_of host x s.conn.session_dnas ≡ []) same
                (dnas_of-absent host t s.conn.sessions s.conn.session_dnas v.owned e) in
            ground (arith, q, back.agents k, none_read)
      ])

  create_session-Writes :
      (t : String) (k : AgentPubKey) (s : SqliteSessionStore)
      → IsValid host s
      → Writes
          (IsValid host)
          (view host json)
          s
          (spec_create_session t k (view host json s))
          (create_session host json t k s)
  unfolding create_session
  create_session-Writes t k s v =
      let pk = host.agent_text k in
      let same : IsValid host (next s.conn s)
          × Below (view host json (next s.conn s)) (view host json s) =
        (unchanged-IsValid host json back s v, unchanged-Below host json back s) in
      elim (Option-cases (fault s 0)) [
        | inr (e, f) ↦ rw (f, create_session) same
        | inl f ↦ elim (Option-cases (lookup pk s.conn.allowed_agents)) [
          | inl a ↦ rw (f, create_session, a) (unchanged-IsValid host json back s v, refl, refl)
          | inr (r, a) ↦ elim (Option-cases (fault s 1)) [
            | inr (e, g) ↦ rw (f, create_session, a, g) same
            | inl g ↦ elim (Option-cases (lookup t s.conn.sessions)) [
              | inr (x, h) ↦ rw (f, create_session, a, g, h) same
              | inl h ↦
                  let row : SessionRow = record {
                    agent_pubkey = pk;
                    capabilities = r.capabilities;
                  } in
                  rw (f, create_session, a, g, h)
                    (
                      record {
                        agents_unique = v.agents_unique;
                        sessions_unique = insert-Unique t row s.conn.sessions v.sessions_unique;
                        named = λ u x i. elim (Bool-cases (t == u)) [
                          | inl q ↦ (k, ground (arith, i, q, lookup-insert t u row s.conn.sessions))
                          | inr q ↦
                              v.named u x
                                (ground (arith, i, q, lookup-insert t u row s.conn.sessions))
                        ];
                        owned = Owned-insert t row s.conn.sessions s.conn.session_dnas h v.owned;
                      },
                      refl,
                      λ j. record {
                        agent = (view host json s).agent;
                        session = λ u. session_in-insert t u k r s v h j;
                      },
                    )
            ]
          ]
        ]
      ]

  -- In a valid state, a call on the backend on SQLite that answers, other than the two listings
  -- (`list_agents`, `session_count`), gives what the abstract store gives, the number of revoked
  -- sessions aside, and leaves the store that it leaves, valid. A call gives an error only if one of its statements fails, with the text of
  -- that, or if the token of a new session is taken; then the tables are as before, except that a
  -- `remove_agent` which fails between its statements leaves the agents and gives no session more.
  -- It is needed that hashes and capabilities are read back from their texts.
  pub sqlite_store-Refines :
      Refines (sqlite_store host json) (IsValid host) (view host json)
      × Failures (sqlite_store host json) StatementFails TokenTaken TablesKept
  sqlite_store-Refines = (
    record {
      add_agent_lem = add_agent-Writes host json back;
      remove_agent_lem = remove_agent-Writes host json back;
      is_agent_allowed_lem = λ k s v. is_agent_allowed-Reads k s;
      get_agent_lem = λ k s v. get_agent-Reads k s;
      create_session_lem = create_session-Writes;
      validate_session_lem = λ t s v. validate_session-Reads t s;
      revoke_session_lem = revoke_session-Writes;
      register_dna_lem = register_dna-Writes;
      revoke_sessions_lem = revoke_sessions-Writes host json back;
    },
    sqlite_store-Failures host json,
  )
