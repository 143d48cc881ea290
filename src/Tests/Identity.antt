-- ===== src/Tests/Identity.antt =====
-- The theorem on the linker's key: a first start that generates it, and a second one.
use h2hc_linker.Base.{ℕ, zero, suc, ◌≡◌, refl, List, [], ◌∷◌, none, some, string_eq}
use h2hc_linker.Host.{ok, err}
use h2hc_linker.Identity.{IdentityConfig, File, IdentityEnv, load, load_from_base64, write_to_file}
use h2hc_linker.Identity.Persistence.{load_again}

abbrev repeated : ℕ → ℕ → List ℕ
repeated zero b = []
repeated (suc n) b = b ∷ repeated n b

abbrev start_with : ℕ → IdentityEnv
start_with b = record {
  decode = λ text. err "no base64";
  secret = repeated 32 b;
  number_text = λ n. "n";
  read_fails = none;
  create_dir_fails = none;
  write_fails = none;
  partial = [];
  permissions_fail = none;
}

abbrev config : IdentityConfig
config = record { key_file = "./linker-key.ed25519"; private_key_base64 = none }

abbrev written : File
written = record { bytes = repeated 32 1; mode = some 384 }

load_again_example :
    load (start_with 2) config (("./linker-key.ed25519", written) ∷ [])
    ≡ (ok (repeated 32 1), ("./linker-key.ed25519", written) ∷ [])
unfolding load load_from_base64 write_to_file
load_again_example =
    load_again (start_with 1) (start_with 2) config [] (("./linker-key.ed25519", written) ∷ [])
      (repeated 32 1) refl refl (λ b64. refl) refl
