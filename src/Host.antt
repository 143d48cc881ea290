-- ===== src/Host.antt =====
-- What the program takes from the libraries for hashes, text and signatures, as one record of
-- functions. A call that may fail gives the text of its error.
use Prim.Native.String.{◌++◌ as str_append}
use h2hc_linker.Base.{ℕ, String, ◌≡◌, refl, ◌⊎◌, inl, inr, Bool, List}
use h2hc_linker.Ids.{AgentPubKey, DnaHash}

pub data Fallible (A : Type 0) : Type 0 where
  ok : A → Fallible A
  err : String → Fallible A

pub Fallible-cases :
    {A : Type 0} (r : Fallible A) → ((a : A) × (r ≡ ok a)) ⊎ ((e : String) × (r ≡ err e))
Fallible-cases (ok a) = inl (a, refl)
Fallible-cases (err e) = inr (e, refl)

-- `?`
infixl 5 ◌>>=◌
abbrev pub ◌>>=◌ : {A B : Type 0} → Fallible A → (A → Fallible B) → Fallible B
ok a >>= f = f a
err e >>= f = err e

-- A message that ends in the text of an error (`format!`).
abbrev pub with_error : String → String → String
with_error text e = str_append text e

pub record Host : Type 0 where
  -- `AgentPubKey::try_from`, `DnaHash::try_from` of a text
  pub parse_agent : String → Fallible AgentPubKey
  pub parse_dna : String → Fallible DnaHash
  -- `to_string` of the hashes
  pub agent_text : AgentPubKey → String
  pub dna_text : DnaHash → String
  -- `AgentPubKey::try_from_raw_39`, `get_raw_32`
  pub agent_of_raw_39 : List ℕ → Fallible AgentPubKey
  pub raw_32 : AgentPubKey → List ℕ
  -- base64 and hex
  pub b64_decode : String → Fallible (List ℕ)
  pub b64_encode : List ℕ → String
  pub hex_encode : List ℕ → String
  -- ed25519: the error of a malformed signature or key, and of a check that fails
  pub signature_of_slice : List ℕ → Fallible (List ℕ)
  pub verifying_key_of_bytes : List ℕ → Fallible (List ℕ)
  pub verify : List ℕ → List ℕ → List ℕ → Bool
