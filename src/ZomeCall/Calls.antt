-- ===== src/ZomeCall/Calls.antt =====
-- src/routes/zome_call.rs: what an answered zome call was.
use h2hc_linker.Base.{String, ◌≡◌, ℕ, List, Option, none, some}
use h2hc_linker.Host.{Host, ok}
use h2hc_linker.Conductor.{Conductor}
use h2hc_linker.ZomeCall.{Transcoder}

-- The bytes of the JSON value that a payload is, in base64, or of null if there is none.
abbrev pub PayloadOf : {Json : Type 0} → Transcoder Json → Option String → List ℕ → Type 0
PayloadOf t none bytes = t.encode t.null_value ≡ ok bytes
PayloadOf {Json} t (some text) bytes =
    (decoded : List ℕ) × (value : Json) × (t.b64_decode text ≡ ok decoded)
    × (t.from_slice decoded ≡ ok value)
    × (t.encode value ≡ ok bytes)

-- The text of the JSON value that bytes decode to.
abbrev pub TextOf : {Json : Type 0} → Transcoder Json → List ℕ → String → Type 0
TextOf {Json} t bytes text = (value : Json) × (t.decode bytes ≡ ok value) × (text ≡ t.text value)
