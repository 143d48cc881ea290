-- ===== src/Auth/Sqlite/Laws.antt =====
-- src/auth/sqlite_store.rs: the backend on SQLite refines the abstract store, whichever statements
-- fail.
use mathlib.Core.Option
use h2hc_linker.Base.{
  String, ◌≡◌, refl, ap, List, Option, none, some, arith, ◌==◌, string_eq, nat_eq, eq_iff,
  nat_beq_iff, ==_refl, inl, inr, Option-cases, Bool-cases, sym, ◌∙◌,
}
use h2hc_linker.Base.Maps.{
  Map, Unique, lookup, insert, remove, lookup-insert, lookup-remove, insert-Unique,
}
use h2hc_linker.Ids.{AgentPubKey, DnaHash}
use h2hc_linker.Host.{Host, Fallible, Fallible-cases}
use h2hc_linker.Host
use h2hc_linker.Auth.Types.{Capability, AllowedAgent, SessionInfo}
use h2hc_linker.Auth.SessionStore.Spec.{Abstract, update, spec_add_agent}
use h2hc_linker.Auth.SessionStore.Refine.{Below, Writes}
use h2hc_linker.Auth.Sqlite.{
  new, AgentRow, SessionRow, DnaRow, Faults, SqliteSessionStore, CapsJson, fault, next, agent_of,
  info_of, add_agent,
}
use h2hc_linker.Auth.Sqlite.Tables.{Owned}

-- What the code relies on: a hash and a set of capabilities are read back from their texts.
pub record ReadsBack (host : Host) (json : CapsJson) : Type 0 where
  pub agents : (k : AgentPubKey) → host.parse_agent (host.agent_text k) ≡ Host.ok k
  pub dnas : (d : DnaHash) → host.parse_dna (host.dna_text d) ≡ Host.ok d
  pub capabilities : (c : List Capability) → json.from_json (json.to_json c) ≡ c

-- Distinct keys, sessions of agents by their texts, and rows that belong to sessions.
pub record IsValid (host : Host) (s : SqliteSessionStore) : Type 0 where
  pub agents_unique : Unique s.conn.allowed_agents
  pub sessions_unique : Unique s.conn.sessions
  pub named :
      (t : String) (r : SessionRow)
      → lookup t s.conn.sessions ≡ some r
      → (k : AgentPubKey) × (r.agent_pubkey ≡ host.agent_text k)
  pub owned : Owned s.conn.sessions s.conn.session_dnas

module _ (host : Host) (json : CapsJson) where
  abbrev pub session_of :
      String → List DnaRow → SessionRow → Fallible AgentPubKey → Option SessionInfo
  session_of t rows r (Host.ok k) = some (info_of host json t rows k r)
  session_of t rows r (Host.err e) = none

  abbrev pub session_in : String → List DnaRow → Option SessionRow → Option SessionInfo
  session_in t rows none = none
  session_in t rows (some r) = session_of t rows r (host.parse_agent r.agent_pubkey)

  abbrev pub view : SqliteSessionStore → Abstract
  view s = record {
    agent =
        λ k. Option.map (agent_of host json k) (lookup (host.agent_text k) s.conn.allowed_agents);
    session = λ t. session_in t s.conn.session_dnas (lookup t s.conn.sessions);
  }

pub new-IsValid : (host : Host) (faults : List Faults) → IsValid host (new faults)
unfolding new
new-IsValid host faults = record {
  agents_unique = tt;
  sessions_unique = tt;
  named = λ t r h. absurd (ground (arith, h));
  owned = tt;
}

module _ (host : Host) (json : CapsJson) (back : ReadsBack host json) where
  pub text_injective : (k j : AgentPubKey) → host.agent_text k ≡ host.agent_text j → k ≡ j
  text_injective k j e =
      let p : Host.ok k ≡ Host.ok j = sym (back.agents k) ∙ ap host.parse_agent e ∙ back.agents j in
      ground (arith, p)

  pub text_eq : (k j : AgentPubKey) → (host.agent_text k == host.agent_text j) ≡ (k == j)
  text_eq k j = elim (Bool-cases (k == j)) [
    | inl e ↦ ground (arith, e, nat_beq_iff k j, ==_refl (host.agent_text k))
    | inr e ↦ ground (
      arith,
      e,
      nat_beq_iff k j,
      eq_iff (host.agent_text k) (host.agent_text j),
      text_injective k j,
    )
  ]

  -- The session of a token, with the agent that its row names.
  pub session_in-named :
      (t : String) (rows : List DnaRow) (r : SessionRow) (k : AgentPubKey)
      → r.agent_pubkey ≡ host.agent_text k
      → session_in host json t rows (some r) ≡ some (info_of host json t rows k r)
  session_in-named t rows r k e = rw (e, back.agents k) refl

  -- A call that fails at once changes nothing.
  pub unchanged-Below :
      (s : SqliteSessionStore) → Below (view host json (next s.conn s)) (view host json s)
  unchanged-Below s = record { agents = refl; sessions = λ t i h. (i, h, refl, refl, λ d m. m) }

  pub unchanged-IsValid : (s : SqliteSessionStore) → IsValid host s → IsValid host (next s.conn s)
  unchanged-IsValid s v = record {
    agents_unique = v.agents_unique;
    sessions_unique = v.sessions_unique;
    named = v.named;
    owned = v.owned;
  }

  -- The agent of a row in the table, at the agent whose text it is under.
  unfoldable pub agent_at : AgentPubKey → Map String AgentRow → Option AllowedAgent
  agent_at k m = Option.map (agent_of host json k) (lookup (host.agent_text k) m)

  pub agent_at-insert :
      (a : AllowedAgent) (k : AgentPubKey) (m : Map String AgentRow)
      → let row : AgentRow = record {
        capabilities = json.to_json a.capabilities;
        label = a.label;
      } in
        agent_at k (insert (host.agent_text a.agent_pubkey) row m)
        ≡ update a.agent_pubkey (some a) (λ k'. agent_at k' m) k
  unfolding agent_at
  agent_at-insert a k m =
      let row : AgentRow = record { capabilities = json.to_json a.capabilities; label = a.label } in
      rw (lookup-insert (host.agent_text a.agent_pubkey) (host.agent_text k) row m) (
        rw (text_eq a.agent_pubkey k) (elim (Bool-cases (a.agent_pubkey == k)) [
          | inl e ↦
              rw e
                (ground (arith, e, nat_beq_iff a.agent_pubkey k, back.capabilities a.capabilities))
          | inr e ↦ rw e refl
        ]))

  pub agent_at-remove :
      (k j : AgentPubKey) (m : Map String AgentRow)
      → agent_at j (remove (host.agent_text k) m) ≡ update k none (λ k'. agent_at k' m) j
  unfolding agent_at
  agent_at-remove k j m =
      rw (lookup-remove (host.agent_text k) (host.agent_text j) m)
        (rw (text_eq k j) (elim (Bool-cases (k == j)) [ inl e ↦ rw e refl | inr e ↦ rw e refl ]))

  pub add_agent-Writes :
      (a : AllowedAgent) (s : SqliteSessionStore)
      → IsValid host s
      → Writes
          (IsValid host)
          (view host json)
          s
          (spec_add_agent a (view host json s))
          (add_agent host json a s)
  unfolding add_agent agent_at
  add_agent-Writes a s v = elim (Option-cases (fault s 0)) [
    | inr (e, f) ↦ rw (f, add_agent) (unchanged-IsValid s v, unchanged-Below s)
    | inl f ↦
        let row : AgentRow = record {
          capabilities = json.to_json a.capabilities;
          label = a.label;
        } in
        rw (f, add_agent)
          (
            record {
              agents_unique =
                  insert-Unique (host.agent_text a.agent_pubkey) row s.conn.allowed_agents
                    v.agents_unique;
              sessions_unique = v.sessions_unique;
              named = v.named;
              owned = v.owned;
            },
            refl,
            λ j. record {
              agent = λ k. agent_at-insert a k s.conn.allowed_agents j;
              session = (view host json s).session;
            },
          )
  ]
