-- ===== src/Identity.antt =====
-- src/identity.rs: where the key of the linker comes from. The state is the files that it reads and
-- writes; a seed is its bytes.
pub mod Persistence
use Prim.Native.String.{◌++◌ as ◌^◌}
use h2hc_linker.Base.{ℕ, String, List, Option, none, some, if◌then◌else◌, ◌==◌, nat_eq, string_eq}
use h2hc_linker.Base.Lists.{length}
use h2hc_linker.Base.Maps.{Map, lookup, insert}
use h2hc_linker.Host.{Fallible, ok, err, with_error}

pub record IdentityConfig : Type 0 where
  pub key_file : String
  pub private_key_base64 : Option String

-- A file with its permissions, where they were set.
pub record File : Type 0 where
  pub bytes : List ℕ
  pub mode : Option ℕ

abbrev pub Files : Type 0
Files = Map String File

-- base64, the random seed, the text of a number, and which calls of the file system fail, with the
-- text of the error. A write that fails leaves the bytes of `partial`.
pub record IdentityEnv : Type 0 where
  pub decode : String → Fallible (List ℕ)
  pub secret : List ℕ
  pub number_text : ℕ → String
  pub read_fails : Option String
  pub create_dir_fails : Option String
  pub write_fails : Option String
  pub partial : List ℕ
  pub permissions_fail : Option String

abbrev pub seed_of : String → List ℕ → Fallible (List ℕ)
seed_of error bytes = if length bytes == 32 then ok bytes else err error

module _ (env : IdentityEnv) where
  unfoldable pub load_from_base64 : String → Fallible (List ℕ)
  load_from_base64 b64 = elim (env.decode b64) [
    | err e ↦ err (with_error "H2HC_LINKER_PRIVATE_KEY is not valid base64: " e)
    | ok bytes ↦
        seed_of
          (with_error "H2HC_LINKER_PRIVATE_KEY must decode to 32 bytes, got "
            (env.number_text (length bytes)))
          bytes
  ]

  unfoldable pub load_from_file : String → File → Fallible (List ℕ)
  load_from_file path file = elim env.read_fails [
    | some e ↦ err ("Failed to read key file " ^ path ^ ": " ^ e)
    | none ↦
        seed_of
          ("Key file "
            ^ path
            ^ " must contain exactly 32 bytes, got "
            ^ env.number_text (length file.bytes))
          file.bytes
  ]

  -- Creates the directory, writes the key, and restricts the permissions to 0600.
  unfoldable pub write_to_file : String → List ℕ → Files → Fallible (Unit {0}) × Files
  write_to_file path key files = elim env.create_dir_fails [
    | some e ↦ (err ("Failed to create directory for key file " ^ path ^ ": " ^ e), files)
    | none ↦ elim env.write_fails [
      | some e ↦ (
        err ("Failed to write key file " ^ path ^ ": " ^ e),
        insert path (record { bytes = env.partial; mode = none }) files,
      )
      | none ↦ elim env.permissions_fail [
        | some e ↦ (
          err ("Failed to set permissions on " ^ path ^ ": " ^ e),
          insert path (record { bytes = key; mode = none }) files,
        )
        | none ↦ (ok tt, insert path (record { bytes = key; mode = some 384 }) files)
      ]
    ]
  ]

  abbrev pub generated : List ℕ → Fallible (Unit {0}) × Files → Fallible (List ℕ) × Files
  generated key (ok u, files) = (ok key, files)
  generated key (err e, files) = (err e, files)

  -- The variable, then the file, then a new key.
  unfoldable pub load : IdentityConfig → Files → Fallible (List ℕ) × Files
  load config files = elim config.private_key_base64 [
    | some b64 ↦ (load_from_base64 b64, files)
    | none ↦ elim (lookup config.key_file files) [
      | some file ↦ (load_from_file config.key_file file, files)
      | none ↦ generated env.secret (write_to_file config.key_file env.secret files)
    ]
  ]
