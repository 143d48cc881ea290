-- ===== src/Tests/Registration.antt =====
-- The theorems on the registration client: a service that rejects the first heartbeat.
use mathlib.Core.List.{Permᴰ}
use h2hc_linker.Base.{◌≡◌, refl, true, false, List, [], ◌∷◌, none, some, arith, eq_iff}
use h2hc_linker.Host.{Fallible, ok, err}
use h2hc_linker.Registration.{
  RegistrationConfig, LinkerIdentity, RegistrationClient, new, HttpResponse, Round, completed,
  stopped_late, run, admin_url,
}
use h2hc_linker.Registration.Url.{
  url_encode_path_segment, encoded_byte, url_decode, url_decode-url_encode,
}
use h2hc_linker.Registration.Canonical.{canonical_json}
use h2hc_linker.Registration.Sorted.{canonical_json-perm}
use h2hc_linker.Registration.Rounds.{
  without_secret, run-without_secret, deregistrations, run-deregistrations,
}

abbrev config : RegistrationConfig
config = record {
  joining_service_url = "http://js";
  invite_token = none;
  public_url = "wss://host:8090";
  initial_heartbeat_interval_secs = 200;
}

admin_url_wss : admin_url config ≡ "https://host:8090"
unfolding admin_url
admin_url_wss = refl

admin_url_https :
    admin_url (record config { public_url = "https://host:8090" }) ≡ "https://host:8090"
unfolding admin_url
admin_url_https = refl

abbrev identity : LinkerIdentity
identity = record {
  public_key_base64 = "a+b=";
  sign = λ text. "sig";
  json_string = λ text. text;
  bytes = λ text. b'a' ∷ b'+' ∷ [];
  of_bytes = λ bytes. "a%2B";
}

abbrev client : RegistrationClient
client = new identity config "secret"

abbrev refused : Fallible HttpResponse
refused =
    ok (record { status = 403; status_text = "403 Forbidden"; text = "no"; json = err "no body" })

abbrev taken : Fallible HttpResponse
taken = ok (record {
  status = 200;
  status_text = "200 OK";
  text = "";
  json = ok (record { registered = true; ttl_seconds = 600; heartbeat_interval_seconds = some 0 });
})

abbrev rounds : List Round
rounds = completed "1" refused ∷ completed "2" taken ∷ stopped_late "3" taken "4" ∷ []

run-without_secret_example : without_secret (run rounds client) ≡ false ∷ false ∷ true ∷ []
unfolding new
run-without_secret_example = run-without_secret rounds client refl

run-deregistrations_example : deregistrations (run rounds client) ≡ 1
unfolding new
run-deregistrations_example = run-deregistrations rounds client refl

url_decode-url_encode_example :
    url_decode (b'a' ∷ b'%' ∷ b'2' ∷ b'B' ∷ []) ≡ some (b'a' ∷ b'+' ∷ [])
unfolding url_encode_path_segment encoded_byte
url_decode-url_encode_example =
    url_decode-url_encode (b'a' ∷ b'+' ∷ []) (omega arith, (omega arith, tt))

canonical_json-perm_example :
    canonical_json (λ text. text) (("b", "1") ∷ ("a", "2") ∷ [])
    ≡ canonical_json (λ text. text) (("a", "2") ∷ ("b", "1") ∷ [])
canonical_json-perm_example =
    canonical_json-perm (λ text. text) (("b", "1") ∷ ("a", "2") ∷ []) (("a", "2") ∷ ("b", "1") ∷ [])
      (Permᴰ.swap refl refl) ((ground (arith, eq_iff "b" "a"), tt), (tt, tt))
