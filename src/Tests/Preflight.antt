-- ===== src/Tests/Preflight.antt =====
-- The theorems on the preflight cache, with a codec of messages whose texts are tallies.
use h2hc_linker.Base.{
  ℕ, String, ◌≡◌, refl, false, List, [], ◌∷◌, some, if◌then◌else◌, ◌==◌, string_eq, nat_eq, arith,
  eq_iff, inl, inr,
}
use h2hc_linker.Base.Maps.{keep_if}
use h2hc_linker.Host.{Fallible, ok, err, Fallible-cases}
use h2hc_linker.Preflight.{
  WirePreflightMessage, AgentInfoSigned, Codec, PreflightCache, default, new, add_agent,
  preflight_gather_outgoing, preflight_validate_incoming,
}
use h2hc_linker.Preflight.Cache.{IsValid, add_agent_lem, outgoing_validated, published, info_of}
use h2hc_linker.Tests.Sqlite.{tally, size}

abbrev encode_texts : List String → Fallible (List ℕ)
encode_texts [] = ok []
encode_texts (s ∷ texts) = elim (encode_texts texts) [
  | err e ↦ err e
  | ok ns ↦ if tally (size s) == s then ok (size s ∷ ns) else err "no tally"
]

abbrev texts_of : List ℕ → List String
texts_of [] = []
texts_of (n ∷ ns) = tally n ∷ texts_of ns

texts_of-encode_texts :
    (texts : List String) (ns : List ℕ) → encode_texts texts ≡ ok ns → texts_of ns ≡ texts
texts_of-encode_texts [] ns h = ground (arith, h)
texts_of-encode_texts (s ∷ texts) ns h = elim (Fallible-cases (encode_texts texts)) [
  | inr (x, e) ↦ absurd (ground (arith, e, h))
  | inl (ms, e) ↦ ground (arith, e, h, texts_of-encode_texts texts ms e, eq_iff (tally (size s)) s)
]

abbrev with_version : ℕ → Fallible (List ℕ) → Fallible (List ℕ)
with_version v (ok ns) = ok (v ∷ ns)
with_version v (err e) = err e

abbrev codec : Codec
codec = record {
  encode_agent = λ info. ok (tally info.agent);
  encode = λ m. with_version m.compat.proto_ver (encode_texts m.agents);
  decode = λ bytes. elim bytes [
    | [] ↦ err "empty"
    | v ∷ ns ↦ ok (record { compat = record { proto_ver = v }; agents = texts_of ns })
  ];
  url_text = λ u. "peer";
  number_text = λ n. "n";
}

reads :
    (m : WirePreflightMessage) (bytes : List ℕ)
    → codec.encode m ≡ ok bytes
    → codec.decode bytes ≡ ok m
reads m bytes h = elim (Fallible-cases (encode_texts m.agents)) [
  | inr (x, e) ↦ absurd (ground (arith, e, h))
  | inl (ns, e) ↦ ground (arith, e, h, texts_of-encode_texts m.agents ns e)
]

abbrev first : PreflightCache
first = record { preflight = 2 ∷ []; compat = default; agents = [] }

abbrev alice : AgentInfoSigned
alice = record { agent = 1; space = 5; expires_at = 100 }

abbrev bob : AgentInfoSigned
bob = record { agent = 2; space = 5; expires_at = 100 }

outgoing_validated_example :
    (bytes : List ℕ) × (preflight_gather_outgoing codec (published codec ((10, alice) ∷ []) first)
      ≡ ok bytes)
    × (preflight_validate_incoming codec 80 bytes ≡ ok tt)
unfolding new
outgoing_validated_example = outgoing_validated codec 80 ((10, alice) ∷ []) first reads refl

abbrev second : PreflightCache
second = record { preflight = 2 ∷ 1 ∷ []; compat = default; agents = alice ∷ [] }

second-IsValid : IsValid codec second
second-IsValid = record {
  current = refl;
  texts = "a" ∷ [];
  presented = refl;
  distinct = (refl, tt);
}

-- Bob is published after the info of Alice has expired.
add_agent_lem_example :
    info_of 1 5 (add_agent codec 200 bob second).agents ≡ keep_if (λ i. false) (some alice)
add_agent_lem_example = (add_agent_lem codec 200 bob second second-IsValid).1 1 5
