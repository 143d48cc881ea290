-- ===== src/Tests/Publishing.antt =====
-- The theorems on the op store and the publish route.
use h2hc_linker.Base.{
  ◌≡◌, refl, true, false, List, [], ◌∷◌, none, some, if◌then◌else◌, ◌==◌, arith, nat_eq, string_eq,
}
use h2hc_linker.Base.Lists.{length, contains}
use h2hc_linker.Host.{Host, ok}
use h2hc_linker.Kitsune.{OpId}
use h2hc_linker.OpStore.{chain_op, OpHost, TempOpStoreInner, store_op}
use h2hc_linker.OpStore.{retrieve_ops}
use h2hc_linker.OpStore.Window.{clean, after, served_window}
use h2hc_linker.Publish.{SignedDhtOp, PublishResponse, PublishState, store_all}
use h2hc_linker.Publish.Held.{Holds, op_ids, store_all-Holds}
use h2hc_linker.Gateway
use h2hc_linker.Tests.Fixtures.{host, gateway}

abbrev ops : OpHost
ops = record {
  decode_extern = λ bytes. ok (chain_op (length bytes));
  decode = λ bytes. ok (chain_op (length bytes));
  op_id = λ op. 8;
  basis_loc = λ op. 3;
  created_at = λ op. 0;
  number_text = λ n. "n";
}

abbrev waiting : TempOpStoreInner
waiting = record {
  ops = (7, record { op_id = 7; op_data = 1 ∷ []; stored_at = 0; created_at = 0 }) ∷ [];
}

-- Signatures have 64 bytes for this host.
abbrev decoding : Host
decoding = record host {
  b64_decode = λ text. if text == "sig" then ok (Gateway.zeros 64) else ok (1 ∷ []);
}

abbrev signed : List SignedDhtOp
signed =
    record { op_data = "op"; signature = "sig" } ∷ record { op_data = "op"; signature = "no" } ∷ []

abbrev state : PublishState
state = record { temp_op_store = some waiting; gateway_kitsune = some gateway }

abbrev dht_response : PublishResponse
dht_response = record {
  success = false;
  queued = 1;
  failed = 1;
  published = 1;
  results =
      record { success = true; error = none }
      ∷ record {
        success = false;
        error = some "Request malformed: Invalid signature length: expected 64 bytes, got n";
      }
      ∷ [];
}

store_all-Holds_example :
    let (stored, store') = store_all decoding ops (λ op. 5) signed (some waiting) in
    (s' : TempOpStoreInner) × (store' ≡ some s')
    × ((id : OpId) → Holds id (some waiting) → Holds id (some s'))
    × ((id : OpId) → contains (op_ids stored.processed) id ≡ true → Holds id (some s'))
store_all-Holds_example = store_all-Holds decoding ops (λ op. 5) signed waiting

-- An op of the time 5 s is not served after a clean-up at 65 s.
served_window_example :
    retrieve_ops
      (8 ∷ [])
      (after ops (clean 65000000000 ∷ []) (store_op ops 5000000000 (2 ∷ []) waiting).1)
    ≡ []
unfolding store_op
served_window_example =
    (served_window ops 5000000000 (2 ∷ []) waiting 8 (refl, tt) refl 10000000000 (ground arith)).0
      (clean 65000000000 ∷ []) tt
