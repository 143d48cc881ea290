-- ===== src/Tests/Sessions.antt =====
-- The theorems on the authentication store, over the in-memory backend.
use h2hc_linker.Base.{◌≡◌, refl, true, false, List, [], ◌∷◌, is_some, arith, string_eq, nat_eq}
use h2hc_linker.Auth.Memory.{new, memory_store}
use h2hc_linker.Auth.Memory
use h2hc_linker.Auth.Memory.Laws.{new-IsValid, memory_store-Refines, view}
use h2hc_linker.Auth.Store.{
  AuthStore, with_store, add_agent, register_dna_for_agent, remove_agent, is_agent_allowed,
  create_session, validate_session,
}
use h2hc_linker.Auth.Store.Revocation.{remove_agent_revokes}
use h2hc_linker.Auth.Store.Reach.{
  Call, adds, creates, registers, after, step, Occurs, validated_allowed, validated_origin,
}
use h2hc_linker.Tests.Fixtures.{alice, inner-IsValid, store}

remove_agent_revokes_example : is_agent_allowed 1 (remove_agent 1 store).1 ≡ false
unfolding remove_agent Memory.remove_agent
remove_agent_revokes_example =
    (remove_agent_revokes memory_store-Refines 1 store inner-IsValid refl).1

abbrev history : List Call
history = registers 1 5 ∷ creates "t" 1 ∷ adds alice ∷ []

abbrev empty_store : AuthStore Memory.MemoryStoreInner
empty_store = with_store new

validated_origin_example : Occurs (creates "t" 1) history
unfolding after step add_agent create_session register_dna_for_agent Memory.create_session
    Memory.create_session_read Memory.create_session_write Memory.add_agent
    Memory.register_dna_for_agent with_store new validate_session Memory.validate_session
validated_origin_example =
    (validated_origin memory_store-Refines history empty_store "t"
      (record { agent_pubkey = 1; capabilities = alice.capabilities; registered_dnas = 5 ∷ [] })
      new-IsValid (λ u. refl) refl).0

validated_allowed_example : is_some ((view (after history empty_store).store).agent 1) ≡ true
unfolding after step add_agent create_session register_dna_for_agent Memory.create_session
    Memory.create_session_read Memory.create_session_write Memory.add_agent
    Memory.register_dna_for_agent with_store new validate_session Memory.validate_session
validated_allowed_example =
    validated_allowed memory_store-Refines history empty_store "t"
      (record { agent_pubkey = 1; capabilities = alice.capabilities; registered_dnas = 5 ∷ [] })
      new-IsValid (λ t i h. ground (arith, h)) refl
