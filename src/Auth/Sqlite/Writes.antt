-- ===== src/Auth/Sqlite/Writes.antt =====
-- src/auth/sqlite_store.rs: what the statements that remove agents, sessions and DNAs leave,
-- whichever fail.
use h2hc_linker.Base.{
  String, ◌≡◌, ◌≢◌, refl, ap, true, not, List, Option, some, arith, ◌==◌, string_eq, nat_eq, eq_iff,
  nat_beq_iff, inl, inr, Option-cases, Bool-cases, sym, ◌∙◌,
}
use h2hc_linker.Base.Lists.{filter}
use h2hc_linker.Base.Maps.{lookup, has_key, retain, lookup-retain, remove-Unique, retain-Unique}
use h2hc_linker.Ids.{AgentPubKey}
use h2hc_linker.Host.{Host}
use h2hc_linker.Auth.Types.{SessionInfo}
use h2hc_linker.Auth.SessionStore.Spec.{
  Abstract, without_agent, spec_remove_agent, spec_revoke_sessions,
}
use h2hc_linker.Auth.SessionStore.Refine.{Below, Writes, forget}
use h2hc_linker.Auth.Sqlite.{
  SessionRow, DnaRow, Connection, SqliteSessionStore, CapsJson, fault, next, cascade, other_agent,
  dnas_of, info_of, remove_agent, revoke_sessions_for_agent,
}
use h2hc_linker.Auth.Sqlite.Tables.{
  Owned, Owned-filter, Owned-cascade, dnas_of-cascade, dnas_of-filter, dnas_of-other,
}
use h2hc_linker.Auth.Sqlite.Laws.{
  ReadsBack, IsValid, session_in, view, text_injective, text_eq, session_in-named, unchanged-Below,
  unchanged-IsValid, agent_at, agent_at-remove,
}

module _ (host : Host) (json : CapsJson) (back : ReadsBack host json) where
  -- The sessions of the other agents, with rows that say the same of them.
  session_in-retain :
      (k : AgentPubKey) (t : String) (s : SqliteSessionStore) (rows : List DnaRow)
      → IsValid host s
      → ((r : SessionRow)
          → lookup t s.conn.sessions ≡ some r
          → r.agent_pubkey ≢ host.agent_text k
          → dnas_of host t rows ≡ dnas_of host t s.conn.session_dnas)
      → session_in host json t rows
          (lookup t (retain (other_agent (host.agent_text k)) s.conn.sessions))
        ≡ without_agent k (view host json s).session t
  session_in-retain k t s rows v same =
      rw (lookup-retain (other_agent (host.agent_text k)) t s.conn.sessions v.sessions_unique)
        (elim (Option-cases (lookup t s.conn.sessions)) [
          | inl e ↦ rw e refl
          | inr (r, e) ↦
              let (k', n) = v.named t r e in
              elim (Bool-cases (k' == k)) [
                | inl q ↦ rw (e, n, text_eq host json back k' k, back.agents k') (ground (arith, q))
                | inr q ↦
                    let other : r.agent_pubkey ≢ host.agent_text k = λ c. ground (
                      arith,
                      q,
                      nat_beq_iff k' k,
                      text_injective host json back k' k (sym n ∙ c),
                    ) in
                    rw (e, n, text_eq host json back k' k, q, back.agents k', same r e other)
                      (ground (arith, q))
              ]
        ])

  Owned-retain :
      (k : String) (s : SqliteSessionStore) (rows : List DnaRow)
      → IsValid host s
      → Owned s.conn.sessions rows
      → let kept = retain (other_agent k) s.conn.sessions in Owned kept (cascade kept rows)
  Owned-retain k s rows v o =
      Owned-cascade (retain (other_agent k) s.conn.sessions) s.conn.sessions rows
        (λ t r h.
          ground (arith, h, lookup-retain (other_agent k) t s.conn.sessions v.sessions_unique))
        o

  -- What a call that was stopped leaves: the same agents, and of each session no more.
  narrowed :
      (s : SqliteSessionStore) (w : Abstract)
      → (w.agent ≡ (view host json s).agent)
      → ((t : String) (i : SessionInfo)
          → w.session t ≡ some i
          → (view host json s).session t ≡ some i)
      → Below w (view host json s)
  narrowed s w a h = record { agents = a; sessions = λ t i e. (i, h t i e, refl, refl, λ d m. m) }

  without_agent-kept :
      (k : AgentPubKey) (f : String → Option SessionInfo) (t : String) (i : SessionInfo)
      → without_agent k f t ≡ some i
      → f t ≡ some i
  without_agent-kept k f t i h = ground (arith, h)

  kept_key :
      (k t : String) (s : SqliteSessionStore) (r : SessionRow)
      → IsValid host s
      → lookup t s.conn.sessions ≡ some r
      → r.agent_pubkey ≢ k
      → has_key t (retain (other_agent k) s.conn.sessions) ≡ true
  kept_key k t s r v h n = ground (
    arith,
    h,
    n,
    eq_iff r.agent_pubkey k,
    lookup-retain (other_agent k) t s.conn.sessions v.sessions_unique,
  )

  -- The connection without the sessions of an agent, where the DNA rows are `rows`.
  abbrev without_sessions : AgentPubKey → SqliteSessionStore → List DnaRow → Connection
  without_sessions k s rows =
      let kept = retain (other_agent (host.agent_text k)) s.conn.sessions in
      record s.conn { sessions = kept; session_dnas = cascade kept rows }

  without_sessions-IsValid :
      (k : AgentPubKey) (s : SqliteSessionStore) (rows : List DnaRow)
      → IsValid host s
      → Owned s.conn.sessions rows
      → IsValid host (next (without_sessions k s rows) s)
  without_sessions-IsValid k s rows v o =
      let pk = host.agent_text k in
      record {
        agents_unique = v.agents_unique;
        sessions_unique = retain-Unique (other_agent pk) s.conn.sessions v.sessions_unique;
        named = λ t r h.
            v.named t r (
              ground
                (arith, h, lookup-retain (other_agent pk) t s.conn.sessions v.sessions_unique));
        owned = Owned-retain pk s rows v o;
      }

  without_sessions-session :
      (k : AgentPubKey) (s : SqliteSessionStore) (rows : List DnaRow) (t : String)
      → IsValid host s
      → ((r : SessionRow)
          → lookup t s.conn.sessions ≡ some r
          → r.agent_pubkey ≢ host.agent_text k
          → dnas_of host t rows ≡ dnas_of host t s.conn.session_dnas)
      → (view host json (next (without_sessions k s rows) s)).session t
        ≡ without_agent k (view host json s).session t
  without_sessions-session k s rows t v same =
      let kept = retain (other_agent (host.agent_text k)) s.conn.sessions in
      session_in-retain k t s (cascade kept rows) v λ r h n.
        dnas_of-cascade host t kept rows (kept_key (host.agent_text k) t s r v h n) ∙ same r h n

  pub revoke_sessions-Writes :
      (k : AgentPubKey) (s : SqliteSessionStore)
      → IsValid host s
      → Writes
          (IsValid host)
          (view host json)
          s
          (tt, spec_revoke_sessions k (view host json s))
          (forget (revoke_sessions_for_agent host json k s))
  unfolding revoke_sessions_for_agent
  revoke_sessions-Writes k s v = elim (Option-cases (fault s 0)) [
    | inr (e, f) ↦
        rw (f, revoke_sessions_for_agent)
          (unchanged-IsValid host json back s v, unchanged-Below host json back s)
    | inl f ↦
        let rows = s.conn.session_dnas in
        rw (f, revoke_sessions_for_agent)
          (
            without_sessions-IsValid k s rows v v.owned,
            refl,
            λ j. record {
              agent = (view host json s).agent;
              session = λ t. without_sessions-session k s rows t v (λ r h n. refl) j;
            },
          )
  ]

  -- The DNA rows of the other agents.
  abbrev other_rows : AgentPubKey → SqliteSessionStore → List DnaRow
  other_rows k s = filter (λ r. not (r.agent_pubkey == host.agent_text k)) s.conn.session_dnas

  other_rows-Owned :
      (k : AgentPubKey) (s : SqliteSessionStore)
      → IsValid host s
      → Owned s.conn.sessions (other_rows k s)
  other_rows-Owned k s v =
      Owned-filter (λ r. not (r.agent_pubkey == host.agent_text k)) s.conn.sessions
        s.conn.session_dnas v.owned

  -- Without them, the sessions of the agent have no DNA.
  other_rows-Below :
      (k : AgentPubKey) (s : SqliteSessionStore)
      → IsValid host s
      → Below
          (view host json (next (record s.conn { session_dnas = other_rows k s }) s))
          (view host json s)
  other_rows-Below k s v = record {
    agents = refl;
    sessions = λ t i h. elim (Option-cases (lookup t s.conn.sessions)) [
      | inl e ↦ absurd (ground (arith, h, e))
      | inr (r, e) ↦
          let (k', n) = v.named t r e in
          let seen = session_in-named host json back t s.conn.session_dnas r k' n in
          let new = session_in-named host json back t (other_rows k s) r k' n in
          let same : info_of host json t (other_rows k s) k' r ≡ i = ground (arith, e, new, h) in
          (
            info_of host json t s.conn.session_dnas k' r,
            ground (arith, e, seen),
            ap (λ x. x.agent_pubkey) same,
            ap (λ x. x.capabilities) same,
            λ d m.
                dnas_of-filter host t (λ x. not (x.agent_pubkey == host.agent_text k))
                  s.conn.session_dnas d (ground (arith, m, ap (λ x. x.registered_dnas) same)),
          )
    ];
  }

  pub remove_agent-Writes :
      (k : AgentPubKey) (s : SqliteSessionStore)
      → IsValid host s
      → Writes
          (IsValid host)
          (view host json)
          s
          (spec_remove_agent k (view host json s))
          (remove_agent host json k s)
  unfolding remove_agent agent_at
  remove_agent-Writes k s v =
      let pk = host.agent_text k in
      let rows = other_rows k s in
      let valid = without_sessions-IsValid k s rows v (other_rows-Owned k s v) in
      let left : (t : String)
          → (view host json (next (without_sessions k s rows) s)).session t
            ≡ without_agent k (view host json s).session t =
        λ t.
          without_sessions-session k s rows t v
            (λ r h n. dnas_of-other host t pk s.conn.sessions r s.conn.session_dnas v.owned h n) in
      elim (Option-cases (fault s 0)) [
        | inr (e, f) ↦
            rw (f, remove_agent)
              (unchanged-IsValid host json back s v, unchanged-Below host json back s)
        | inl f ↦ elim (Option-cases (fault s 1)) [
          | inr (e, g) ↦
              rw (f, remove_agent, g)
                (
                  record {
                    agents_unique = v.agents_unique;
                    sessions_unique = v.sessions_unique;
                    named = v.named;
                    owned = other_rows-Owned k s v;
                  },
                  other_rows-Below k s v,
                )
          | inl g ↦ elim (Option-cases (fault s 2)) [
            | inr (e, l) ↦
                rw (f, remove_agent, g, l)
                  (
                    valid,
                    narrowed s (view host json (next (without_sessions k s rows) s)) refl λ t i h.
                        without_agent-kept k (view host json s).session t i (sym (left t) ∙ h),
                  )
            | inl l ↦
                rw (f, remove_agent, g, l)
                  (
                    record {
                      agents_unique = remove-Unique pk s.conn.allowed_agents v.agents_unique;
                      sessions_unique = valid.sessions_unique;
                      named = valid.named;
                      owned = valid.owned;
                    },
                    ground (arith, lookup pk s.conn.allowed_agents),
                    λ j. record {
                      agent = λ a. agent_at-remove host json back k a s.conn.allowed_agents j;
                      session = λ t. left t j;
                    },
                  )
          ]
        ]
      ]
