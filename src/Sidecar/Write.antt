-- ===== src/Sidecar/Write.antt =====
-- The writing and the migration of a sidecar in agent_personal_vault/sidecar_store.py. The salt and the
-- nonce, which `encrypt_sidecar_payload` draws, are drawn before it here; `active` says whether the
-- guard of the migration is held.
use agent_personal_vault.Prelude.{
  ℕ, String, Bool, true, false, Option, none, some, ltb, if◌then◌else◌,
}
use agent_personal_vault.Result.{Result, ok, value_error, resource_limit_error, require, raise_if}
use agent_personal_vault.Exec.{Exec, pure, lift, reads, ◌>>=◌, ◌>>◌}
use agent_personal_vault.Python.Json.{obj, Fields}
use agent_personal_vault.Limits.{validate_json_resources, max_private_json_bytes}
use agent_personal_vault.Crypto.{EncryptionProfile}
use agent_personal_vault.Crypto.Equal.{profile_eq}
use agent_personal_vault.Crypto.Store.{encrypt_sidecar_payload}
use agent_personal_vault.Files.{FileName, Files}
use agent_personal_vault.Guard.{kdf_write_guard}
use agent_personal_vault.Sidecar.{
  required_passphrase, sidecar_protection, validate_sidecar_passphrase_binding, or_given,
}
use agent_personal_vault.Sidecar.Profile.{vault_profile, choose_profile}
use agent_personal_vault.Sidecar.Read.{read_sidecar_bytes}

-- The vault's path is the one of the model.
pub record PreparedSidecarWrite (B : Type 0) : Type 0 where
  pub path : FileName
  pub expected_profile : Option EncryptionProfile
  pub payload : B

-- `current_profile == prepared.expected_profile`
abbrev pub same_profile : Option EncryptionProfile → Option EncryptionProfile → Bool
same_profile none none = true
same_profile (some p) (some q) = profile_eq p q
same_profile _ _ = false

module _ {W B : Type 0} (f : Files W B) where
  abbrev pub check_size : B → Result (Unit {0})
  check_size payload =
      raise_if (ltb max_private_json_bytes (f.cipher.len payload))
        (resource_limit_error "private state exceeds the supported size limit")

  abbrev pub urandom : ℕ → Exec W B
  urandom n w = let (b, w') = f.urandom n w in (ok b, w')

  unfoldable pub encode_sidecar :
      FileName → B → String → Option String → EncryptionProfile → Exec W (PreparedSidecarWrite B)
  encode_sidecar path payload kind passphrase profile = do
    selected ← lift (required_passphrase passphrase f.default_passphrase)
    salt ← urandom 16
    nonce ← urandom 12
    envelope ← lift (encrypt_sidecar_payload f.cipher payload selected kind profile salt nonce)
    lift (validate_json_resources envelope)
    lift (check_size (f.dumps_indented envelope))
    pure (record {
      path = path;
      expected_profile = some profile;
      payload = f.dumps_indented envelope;
    })

  abbrev pub plain_sidecar : FileName → B → PreparedSidecarWrite B
  plain_sidecar path payload = record { path = path; expected_profile = none; payload = payload }

  abbrev pub encode_protected :
      FileName
      → B
      → String
      → Option String
      → Option EncryptionProfile
      → Exec W (PreparedSidecarWrite B)
  encode_protected path payload kind passphrase profile = do
    selected_profile ← reads (choose_profile f profile)
    encode_sidecar path payload kind passphrase selected_profile

  unfoldable pub prepare_sidecar_write :
      FileName
      → B
      → String
      → Bool
      → Option String
      → Option EncryptionProfile
      → Exec W (PreparedSidecarWrite B)
  unfolding encode_sidecar
  prepare_sidecar_write path payload kind encrypted passphrase profile = do
    lift (check_size payload)
    if encrypted
        then encode_protected path payload kind passphrase profile
        else pure (plain_sidecar path payload)

  -- Under the guard.
  abbrev pub commit_guarded : PreparedSidecarWrite B → Exec W (Unit {0})
  commit_guarded prepared = do
    current_profile ← reads (vault_profile f)
    lift (
        require (same_profile current_profile prepared.expected_profile)
          (value_error "vault encryption profile changed; reload and retry"))
    f.write_private_bytes prepared.path prepared.payload

  unfoldable pub commit_prepared_sidecar : Bool → PreparedSidecarWrite B → Exec W (Unit {0})
  unfolding kdf_write_guard
  commit_prepared_sidecar active prepared =
      kdf_write_guard f active false (λ held. commit_guarded prepared)

  abbrev pub write_guarded : FileName → B → String → Option String → Bool → Exec W (Unit {0})
  write_guarded path payload kind passphrase held = do
    protection ← reads (sidecar_protection f passphrase)
    prepared ←
        prepare_sidecar_write path payload kind protection.protect protection.passphrase
          protection.profile
    commit_prepared_sidecar held prepared

  unfoldable pub write_sidecar_bytes :
      Bool → FileName → B → String → Option String → Exec W (Unit {0})
  unfolding kdf_write_guard prepare_sidecar_write commit_prepared_sidecar
  write_sidecar_bytes active path payload kind passphrase =
      kdf_write_guard f active false (write_guarded path payload kind passphrase)

  unfoldable pub write_sidecar_json :
      Bool → FileName → Fields → String → Option String → Exec W (Unit {0})
  unfolding write_sidecar_bytes
  write_sidecar_json active path payload kind passphrase = do
    lift (validate_json_resources (obj payload))
    lift (
        raise_if (ltb max_private_json_bytes (f.cipher.len (f.dumps_indented (obj payload))))
          (value_error "private state exceeds the supported size limit"))
    write_sidecar_bytes active path (f.dumps_indented (obj payload)) kind passphrase

  abbrev pub transform_sidecar :
      FileName
      → String
      → Bool
      → String
      → Option EncryptionProfile
      → ℕ
      → Exec W (Option (PreparedSidecarWrite B))
  transform_sidecar path kind encrypted passphrase profile max_bytes = do
    plaintext ← reads (read_sidecar_bytes f path kind (some passphrase) max_bytes)
    prepared ← prepare_sidecar_write path plaintext kind encrypted (some passphrase) profile
    pure (some prepared)

  unfoldable pub prepare_sidecar_migration :
      FileName
      → String
      → Bool
      → String
      → Option EncryptionProfile
      → ℕ
      → Exec W (Option (PreparedSidecarWrite B))
  prepare_sidecar_migration path kind encrypted passphrase profile max_bytes = do
    validated ← reads (validate_sidecar_passphrase_binding f (some passphrase))
    exists ← reads (f.private_file_exists path)
    if exists
        then transform_sidecar path kind encrypted (or_given validated passphrase) profile max_bytes
        else pure none

  abbrev pub commit_if_prepared : Bool → Option (PreparedSidecarWrite B) → Exec W Bool
  commit_if_prepared active none = pure false
  commit_if_prepared active (some prepared) = do commit_prepared_sidecar active prepared; pure true

  unfoldable pub migrate_sidecar : Bool → FileName → String → Bool → String → ℕ → Exec W Bool
  unfolding prepare_sidecar_migration
  migrate_sidecar active path kind encrypted passphrase max_bytes = do
    prepared ← prepare_sidecar_migration path kind encrypted passphrase none max_bytes
    commit_if_prepared active prepared
