-- ===== src/Tests/Dht.antt =====
-- The theorems on the DHT routes: an entry with two creates, and links of one base.
use h2hc_linker.Base.{
  ℕ, ◌≡◌, refl, Bool, true, false, List, [], ◌∷◌, none, some, inl, inr, is_some, arith,
}
use h2hc_linker.Dht.{
  Common, create, JudgedCreate, WireDelete, EntryData, WireEntryOps, create_action, update_action,
  delete_action, Hasher, wire_entry_ops_to_record, CreateLink, LinksQuery, wire_link_ops_to_links,
}
use h2hc_linker.Dht.Live.{wire_entry_ops_to_record_lem}
use h2hc_linker.Dht.Links.{condensed_all, made_by_all, wire_link_ops_to_links-condensed}

-- An action is told by its time.
abbrev pub hasher : Hasher
hasher = record {
  hash_action = λ a. elim a [
    | create_action common entry_type entry_hash ↦ common.timestamp
    | update_action common entry original entry_type entry_hash ↦ common.timestamp
    | delete_action d ↦ d.common.timestamp
  ];
  hash_entry = λ e. e;
  entry_data = λ a. elim a [
    | create_action common entry_type entry_hash ↦ some entry_hash
    | update_action common entry original entry_type entry_hash ↦ some entry_hash
    | delete_action d ↦ none
  ];
}

abbrev common_at : ℕ → Common
common_at at = record { author = 1; timestamp = at; action_seq = 4; prev_action = 9; weight = 0 }

abbrev judged : ℕ → JudgedCreate
judged at = record {
  data_of = create (record { common = common_at at; signature = [] });
  status = none;
}

abbrev delete_of : ℕ → ℕ → WireDelete
delete_of target at = record {
  delete = record { common = common_at at; deletes_address = target; deletes_entry_address = 3 };
  signature = [];
}

abbrev entry_data : EntryData
entry_data = record { entry = 3; entry_type = 0 }

abbrev pub ops : WireEntryOps
ops = record {
  entry = some entry_data;
  creates = judged 20 ∷ judged 30 ∷ [];
  deletes = delete_of 20 40 ∷ delete_of 20 50 ∷ [];
  updates = [];
}

wire_entry_ops_to_record_lem_example : is_some (wire_entry_ops_to_record hasher ops) ≡ true
wire_entry_ops_to_record_lem_example =
    (wire_entry_ops_to_record_lem hasher ops entry_data refl).1
      (inr (inl (inl refl, (ground arith, (ground arith, tt)))))

abbrev link : ℕ → CreateLink
link target = record {
  author = 1;
  timestamp = 20;
  action_seq = 4;
  prev_action = 9;
  base_address = 3;
  target_address = target;
  zome_index = 0;
  link_type = 2;
  tag = 7 ∷ [];
  weight = 0;
}

abbrev sent : List (Bool × CreateLink)
sent = (true, link 5) ∷ (false, link 6) ∷ []

wire_link_ops_to_links-condensed_example :
    wire_link_ops_to_links (λ c. c.target_address) (condensed_all sent) 3 (some (7 ∷ []))
    ≡ made_by_all (λ c. c.target_address) sent
wire_link_ops_to_links-condensed_example =
    wire_link_ops_to_links-condensed (λ c. c.target_address) 3 (some (7 ∷ [])) sent
      ((refl, inl refl), ((refl, inr refl), tt))

abbrev query : LinksQuery
query = record { base = "base"; link_type = some 258; tag = none; zome_index = some 0 }
