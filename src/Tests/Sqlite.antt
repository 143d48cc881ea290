-- ===== src/Tests/Sqlite.antt =====
-- The backend on SQLite with an encoding of hashes and capabilities in unary.
use Prim.Native.String.{[] as empty, ◌∷◌ as ◌⊳◌}
use h2hc_linker.Base.{
  ℕ, zero, suc, String, ◌≡◌, refl, ap, List, [], ◌∷◌, none, some, if◌then◌else◌, ◌==◌, string_eq,
  nat_eq, arith, eq_iff,
}
use h2hc_linker.Host.{Host, ok}
use h2hc_linker.Auth.Types.{Capability, dht_read, dht_write, k2}
use h2hc_linker.Auth.SessionStore.Spec.{spec_remove_agent}
use h2hc_linker.Auth.SessionStore.Refine.{Writes}
use h2hc_linker.Auth.Sqlite.{CapsJson, SqliteSessionStore, Faults, remove_agent}
use h2hc_linker.Auth.Sqlite.Laws.{ReadsBack, IsValid, view}
use h2hc_linker.Auth.Sqlite.Refinement.{sqlite_store-Refines}
use h2hc_linker.Tests.Fixtures.{host}

abbrev pub tally : ℕ → String
tally zero = empty
tally (suc n) = "a" ⊳ tally n

abbrev pub size : String → ℕ
size empty = 0
size (c ⊳ text) = suc (size text)

size-tally : (n : ℕ) → size (tally n) ≡ n
size-tally zero = refl
size-tally (suc n) = ap suc (size-tally n)

abbrev caps_text : List Capability → String
caps_text [] = empty
caps_text (dht_read ∷ caps) = "r" ⊳ caps_text caps
caps_text (dht_write ∷ caps) = "w" ⊳ caps_text caps
caps_text (k2 ∷ caps) = "k" ⊳ caps_text caps

abbrev caps_of : String → List Capability
caps_of empty = []
caps_of (c ⊳ text) =
    (if (c ⊳ empty) == "r" then dht_read else (if (c ⊳ empty) == "w" then dht_write else k2))
    ∷ caps_of text

caps_of-caps_text : (caps : List Capability) → caps_of (caps_text caps) ≡ caps
caps_of-caps_text [] = refl
caps_of-caps_text (dht_read ∷ caps) = ap (λ m. dht_read ∷ m) (caps_of-caps_text caps)
caps_of-caps_text (dht_write ∷ caps) = ap (λ m. dht_write ∷ m) (caps_of-caps_text caps)
caps_of-caps_text (k2 ∷ caps) = ap (λ m. k2 ∷ m) (caps_of-caps_text caps)

abbrev unary : Host
unary = record host {
  parse_agent = λ text. ok (size text);
  parse_dna = λ text. ok (size text);
  agent_text = tally;
  dna_text = tally;
}

abbrev json : CapsJson
json = record { to_json = caps_text; from_json = caps_of }

reads_back : ReadsBack unary json
reads_back = record {
  agents = λ k. ap ok (size-tally k);
  dnas = λ d. ap ok (size-tally d);
  capabilities = caps_of-caps_text;
}

-- The third statement of the next call fails.
abbrev third_fails : Faults
third_fails n = if n == 2 then some "disk I/O error" else none

-- The agent 1 with a session of one DNA.
abbrev opened : SqliteSessionStore
opened = record {
  conn = record {
    allowed_agents = ("a", record { capabilities = "rw"; label = none }) ∷ [];
    sessions = ("t", record { agent_pubkey = "a"; capabilities = "rw" }) ∷ [];
    session_dnas = record { token = "t"; dna_hash = "aaa"; agent_pubkey = "a" } ∷ [];
  };
  faults = third_fails ∷ [];
}

opened-IsValid : IsValid unary opened
opened-IsValid = record {
  agents_unique = (refl, tt);
  sessions_unique = (refl, tt);
  named = λ t r h. (1, ground (arith, h, eq_iff "t" t));
  owned = ((record { agent_pubkey = "a"; capabilities = "rw" }, refl, refl), tt);
}

sqlite_store-Refines_example :
    Writes
      (IsValid unary)
      (view unary json)
      opened
      (spec_remove_agent 1 (view unary json opened))
      (remove_agent unary json 1 opened)
sqlite_store-Refines_example =
    (sqlite_store-Refines unary json reads_back).0.remove_agent_lem 1 opened opened-IsValid
