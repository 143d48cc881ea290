-- ===== src/Tests/Guards.antt =====
-- The theorems on the HTTP guards.
use h2hc_linker.Base.{ℕ, String, ◌≡◌, refl, true, Option, none, some, nat_eq}
use h2hc_linker.Base.Lists.{contains}
use h2hc_linker.Ids.{DnaHash}
use h2hc_linker.Auth.Types.{has_capability, has_dna, dht_write}
use h2hc_linker.Auth.Memory
use h2hc_linker.Auth.Memory.{MemoryStoreInner, memory_store}
use h2hc_linker.Auth.Store.{validate_session}
use h2hc_linker.Auth.Middleware.{
  Request, Response, handled, GuardState, context_of, extract_bearer_token, check_capability,
  require_dna_scope,
}
use h2hc_linker.Auth.Middleware.Guards.{check_capability_admits, require_dna_scope_handled}
use h2hc_linker.Base.{[], ◌∷◌}
use h2hc_linker.Auth.Store.{AuthStore}
use h2hc_linker.Auth.Memory.Laws.{IsValid}
use h2hc_linker.Tests.Fixtures.{bob, bob_session, alice_session, store}

abbrev pub parse : String → Option DnaHash
parse text = some 5

abbrev pub state : GuardState MemoryStoreInner
state = record { admin_secret = none; auth_store = some store }

abbrev pub req : Request
req = record { authorization = some "Bearer a"; dna_hash = some "dna"; extension = none }

abbrev scoped_req : Request
scoped_req = record req { extension = some (context_of alice_session) }

abbrev handler : Request → Response ℕ
handler r = handled 7

require_dna_scope_handled_example :
    (text : String) × (dna : DnaHash) × (scoped_req.dna_hash ≡ some text)
    × (parse text ≡ some dna)
    × (contains alice_session.registered_dnas dna ≡ true)
    × (handler scoped_req ≡ handled 7)
unfolding require_dna_scope has_dna
require_dna_scope_handled_example =
    require_dna_scope_handled parse scoped_req handler (context_of alice_session) 7 refl refl

check_capability_admits_example :
    check_capability state req handler dht_write
    ≡ handler (record req { extension = some (context_of alice_session) })
unfolding extract_bearer_token validate_session Memory.validate_session has_capability
check_capability_admits_example =
    check_capability_admits state req handler dht_write store "a" alice_session
      (record { configured = refl; bearer = refl; valid = refl; capable = refl })

-- The store in `o` is valid.
abbrev ValidIn : Option (AuthStore MemoryStoreInner) → Type 0
ValidIn none = Unit
ValidIn (some s) = IsValid s.store

abbrev admin_state : GuardState MemoryStoreInner
admin_state = record { admin_secret = some "s"; auth_store = some store }

abbrev admin_req : Request
admin_req = record { authorization = some "Bearer s"; dna_hash = none; extension = none }

abbrev alice_removed : GuardState MemoryStoreInner
alice_removed = record admin_state {
  auth_store = some (record {
    store = record { allowed_agents = (2, bob) ∷ []; sessions = ("b", bob_session) ∷ [] };
    ws_senders = [];
  });
}
