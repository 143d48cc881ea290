-- ===== src/Identity/Persistence.antt =====
-- src/identity.rs: the key stays the same from one start to the next.
use h2hc_linker.Base.{
  ℕ, String, ◌≡◌, ap, ◌∙◌, inl, inr, List, none, some, arith, nat_eq, string_eq, Option-cases,
  ==_refl,
}
use h2hc_linker.Base.Lists.{length}
use h2hc_linker.Base.Maps.{lookup, insert, lookup-insert}
use h2hc_linker.Host.{ok}
use h2hc_linker.Identity.{
  IdentityConfig, File, Files, IdentityEnv, load_from_base64, load_from_file, write_to_file, load,
}

-- A seed that was read has 32 bytes.
load_from_file-same :
    (env env' : IdentityEnv) (path : String) (file : File) (key : List ℕ)
    → env'.read_fails ≡ none
    → load_from_file env path file ≡ ok key
    → load_from_file env' path file ≡ ok key
unfolding load_from_file
load_from_file-same env env' path file key r h =
    rw (r, load_from_file) (ground (arith, h, env.read_fails))

write_to_file-ok :
    (env : IdentityEnv) (path : String) (key : List ℕ) (files files' : Files)
    → write_to_file env path key files ≡ (ok tt, files')
    → files' ≡ insert path (record { bytes = key; mode = some 384 }) files
unfolding write_to_file
write_to_file-ok env path key files files' h =
    ground (arith, h, env.create_dir_fails, env.write_fails, env.permissions_fail)

-- A start that has a key leaves files with which every later start has the same key and changes no
-- file, whatever seed it would draw: from the variable, from the file, or from the file that the
-- first start has written. It is needed that the later start can read the file.
pub load_again :
    (env env' : IdentityEnv) (config : IdentityConfig) (files files' : Files) (key : List ℕ)
    → length env.secret ≡ 32
    → env'.read_fails ≡ none
    → ((b64 : String) → load_from_base64 env' b64 ≡ load_from_base64 env b64)
    → load env config files ≡ (ok key, files')
    → load env' config files' ≡ (ok key, files')
unfolding load load_from_file
load_again env env' config files files' key len r same h =
    elim (Option-cases config.private_key_base64) [
      | inr (b64, e) ↦ ground (arith, e, h, same b64)
      | inl e ↦ elim (Option-cases (lookup config.key_file files)) [
        | inr (file, f) ↦
            let found : load_from_file env config.key_file file ≡ ok key =
              ground (arith, e, f, h) in
            let kept : files ≡ files' = ground (arith, e, f, h) in
            let again = load_from_file-same env env' config.key_file file key r found in
            ground (arith, e, f, again, kept)
        | inl f ↦
            let key_is : env.secret ≡ key =
              ground (arith, e, f, h, write_to_file env config.key_file env.secret files) in
            let written : write_to_file env config.key_file env.secret files ≡ (ok tt, files') =
              ground (arith, e, f, h, write_to_file env config.key_file env.secret files) in
            let file : File = record { bytes = env.secret; mode = some 384 } in
            let there : lookup config.key_file files' ≡ some file =
              ap (λ fs. lookup config.key_file fs)
                (write_to_file-ok env config.key_file env.secret files files' written)
              ∙ ground (
                arith,
                lookup-insert config.key_file config.key_file file files,
                ==_refl config.key_file,
              ) in
            let read : load_from_file env' config.key_file file ≡ ok key =
              rw (r, load_from_file) (ground (arith, len, key_is)) in
            ground (arith, e, there, read)
      ]
    ]
