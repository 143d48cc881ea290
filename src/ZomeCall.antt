-- ===== src/ZomeCall.antt =====
-- src/routes/zome_call.rs: the route of the zome calls. A JSON value is of the type `Json`; its codecs
-- are arguments.
pub mod Calls
use h2hc_linker.Base.{String, ℕ, List, Option, none, some}
use h2hc_linker.Ids.{DnaHash}
use h2hc_linker.Host.{Host, Fallible, ok, err, with_error}
use h2hc_linker.Error.{
  LinkerError, internal, request_malformed, upstream_unavailable, LinkerResult, done, failure,
  ◌>>=◌,
}
use h2hc_linker.Conductor.{Conductor, AppConn, call_zome}

pub record ZomeCallPath : Type 0 where
  pub dna_hash : String
  pub zome_name : String
  pub fn_name : String

pub record ZomeCallQuery : Type 0 where
  pub payload : Option String

-- URL-safe base64, `serde_json::from_slice`, the JSON null, `ExternIO::encode`, `ExternIO::decode` and
-- the text of a JSON value.
pub record Transcoder (Json : Type 0) : Type 0 where
  pub b64_decode : String → Fallible (List ℕ)
  pub from_slice : List ℕ → Fallible Json
  pub null_value : Json
  pub encode : Json → Fallible (List ℕ)
  pub decode : List ℕ → Fallible Json
  pub text : Json → String

-- `map_err(|_| RequestMalformed(..))`
abbrev pub or_malformed : {A : Type 0} → String → Fallible A → LinkerResult A
or_malformed text (ok a) = done a
or_malformed text (err e) = failure (request_malformed text)

module _ {Json : Type 0} (t : Transcoder Json) where
  abbrev pub payload_json : Option String → LinkerResult Json
  payload_json none = done t.null_value
  payload_json (some base64_encoded) = do
    decoded ← or_malformed "Invalid base64 encoding" (t.b64_decode base64_encoded)
    or_malformed "Invalid JSON value" (t.from_slice decoded)

  abbrev pub encoded : Fallible (List ℕ) → LinkerResult (List ℕ)
  encoded (ok bytes) = done bytes
  encoded (err e) = failure (request_malformed (with_error "Failed to serialize payload: " e))

  unfoldable pub base64_json_to_extern_io : Option String → LinkerResult (List ℕ)
  base64_json_to_extern_io maybe_payload = do
    json_value ← payload_json maybe_payload
    encoded (t.encode json_value)

  unfoldable pub extern_io_to_json : List ℕ → LinkerResult String
  extern_io_to_json response = elim (t.decode response) [
    | err e ↦ failure (internal (with_error "Failed to decode response: " e))
    | ok json_value ↦ done (t.text json_value)
  ]

  -- From the payload on.
  abbrev pub call_with :
      Conductor
      → DnaHash
      → ZomeCallPath
      → AppConn
      → LinkerResult (List ℕ)
      → LinkerResult String × AppConn
  call_with conductor dna path app (failure e) = (failure e, app)
  call_with conductor dna path app (done payload) =
      let called = call_zome conductor dna path.zome_name path.fn_name payload app in
      (called.0 >>= λ result. extern_io_to_json result, called.1)

  -- `some` of the connections if a conductor is configured.
  unfoldable pub zome_call_route :
      Host
      → Conductor
      → ZomeCallPath
      → ZomeCallQuery
      → Option AppConn
      → LinkerResult String × Option AppConn
  unfolding base64_json_to_extern_io extern_io_to_json
  zome_call_route host conductor path query app_conn = elim (host.parse_dna path.dna_hash) [
    | err e ↦ (failure (request_malformed "Invalid DNA hash"), app_conn)
    | ok dna ↦ elim app_conn [
      | none ↦ (failure upstream_unavailable, none)
      | some app ↦
          let result = call_with conductor dna path app (base64_json_to_extern_io query.payload) in
          (result.0, some result.1)
    ]
  ]
