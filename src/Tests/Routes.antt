-- ===== src/Tests/Routes.antt =====
-- The theorems on the DHT routes as a whole.
use h2hc_linker.Base.{ℕ, ◌≡◌, none, some}
use h2hc_linker.Host.{ok, err}
use h2hc_linker.Error.{done}
use h2hc_linker.Query.{joined}
use h2hc_linker.Dht.{entry_ops, CreateLink, LinksQuery}
use h2hc_linker.Dht.Routes.{HashHost, RecordPath, LinksPath}
use h2hc_linker.Dht.Handlers.{Asks, dht_get_record, dht_get_details}
use h2hc_linker.Dht.Agreement.{Agree, record_and_details-Agree}
use h2hc_linker.Tests.Fixtures.{host, kitsune, gateway}
use h2hc_linker.Tests.Dht.{hasher, ops}

abbrev hashes : HashHost
hashes = record {
  parse_entry = λ s. ok 3;
  parse_action = λ s. err "no action";
  parse_external = λ s. err "no external hash";
  dht_of_entry = λ h. h;
  dht_of_action = λ h. h;
  linkable_of_agent = λ h. h;
  linkable_of_entry = λ h. h;
  linkable_of_action = λ h. h;
  linkable_of_external = λ h. h;
  dht_loc = λ h. 3;
  linkable_loc = λ h. 3;
  agent_loc = λ a. 3;
}

-- Every peer has the entry of the tests on the DHT routes.
abbrev asks : Asks
asks = record {
  ask_get = λ hash space peer. joined (done (some (entry_ops ops)));
  ask_links = λ key space peer. joined (done none);
  ask_count = λ key space peer. joined (done (some 2));
  ask_activity = λ agent options space peer. joined (done none);
  ask_must_get = λ agent filter space peer. joined (done none);
}

abbrev target_of : CreateLink → ℕ
target_of c = c.target_address

abbrev path : RecordPath
path = record { dna_hash = "dna"; hash = "entry" }

record_and_details-Agree_example :
    let record_answer =
      dht_get_record host hashes hasher target_of kitsune asks path (some gateway) in
    let details_answer =
      dht_get_details host hashes hasher target_of kitsune asks path (some gateway) in
    (record_answer.1 ≡ details_answer.1) × Agree record_answer.0 details_answer.0
record_and_details-Agree_example =
    record_and_details-Agree host hashes hasher target_of kitsune asks path (some gateway)

abbrev links_path : LinksPath
links_path = record { dna_hash = "dna" }

-- A link type without a zome.
abbrev untyped : LinksQuery
untyped = record { base = "alice"; link_type = some 2; tag = none; zome_index = none }
