-- ===== src/Tests/Agents.antt =====
-- The theorems on the registrations and the signature requests of the agent proxy.
use h2hc_linker.Base.{ℕ, String, ◌≡◌, refl, [], ◌∷◌, some, arith, nat_eq, string_eq}
use h2hc_linker.Host.{ok, err}
use h2hc_linker.Proxy.{SignEnv, timed_out, open_request, deliver_signature}
use h2hc_linker.Proxy.Signing.{IsNumbered, deliver_signature-open_request}
use h2hc_linker.Tests.Fixtures.{proxy}

-- An id is a text of its counter's length.
abbrev text_of : ℕ → String
text_of ℕ.zero = ""
text_of (ℕ.suc n) = String.◌∷◌ "i" (text_of n)

text_of_injective : (a b : ℕ) → text_of a ≡ text_of b → a ≡ b
text_of_injective ℕ.zero ℕ.zero h = refl
text_of_injective ℕ.zero (ℕ.suc b) h = absurd (cc)
text_of_injective (ℕ.suc a) ℕ.zero h = absurd (cc)
text_of_injective (ℕ.suc a) (ℕ.suc b) h = ground (arith, h, text_of_injective a b)

abbrev env : SignEnv
env = record {
  format_id = λ n t. text_of n;
  now_millis = 1000;
  agent_debug = λ a. "agent";
  sign_timeout = "30s";
  agent_info = ok "{}";
  channel = 77;
  send = λ c m. ok tt;
  others = λ m. m;
  wait = timed_out;
}

numbered : IsNumbered env.format_id proxy
numbered = λ id c h. ground (arith, h)

deliver_signature-open_request_example :
    (deliver_signature (open_request env proxy).0 (ok (1 ∷ [])) (open_request env proxy).1).0
    ≡ some (77, ok (1 ∷ []))
deliver_signature-open_request_example =
    (deliver_signature-open_request env (λ a x b y h. text_of_injective a b h) proxy (ok (1 ∷ []))
      (err "late") numbered).0

abbrev failing : SignEnv
failing = record env { agent_info = err "no json" }
