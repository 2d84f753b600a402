-- ===== src/Consent/Migration.antt =====
-- agent_personal_vault/consent.py: the consent file when the vault's encryption changes.
use agent_personal_vault.Prelude.{String, Bool, true, false, Option, none, some, if◌then◌else◌}
use agent_personal_vault.Result.{Result}
use agent_personal_vault.Exec.{Exec, pure, lift, reads, ◌>>=◌, ◌>>◌}
use agent_personal_vault.Python.Json.{obj, Fields}
use agent_personal_vault.Platform.{Platform}
use agent_personal_vault.Crypto.{EncryptionProfile}
use agent_personal_vault.Files.{consent, current, Files}
use agent_personal_vault.Guard.{kdf_write_guard}
use agent_personal_vault.Sidecar.{or_given, validate_sidecar_passphrase_binding}
use agent_personal_vault.Sidecar.Read.{read_sidecar_json}
use agent_personal_vault.Sidecar.Write.{
  PreparedSidecarWrite, prepare_sidecar_write, commit_prepared_sidecar,
}
use agent_personal_vault.Consent.State.{load_from, normalize_state}

module _ {W B : Type 0} (p : Platform) (f : Files W B) where
  -- `_load_state` over the files
  unfoldable pub load_sidecar_state : String → W → Result Fields
  load_sidecar_state passphrase w =
      load_from p (f.private_file_exists (current consent) w)
        (read_sidecar_json f (current consent) "consent" (some passphrase) w)

  abbrev pub encode_consent_state :
      Bool → String → Option EncryptionProfile → Exec W (Option (PreparedSidecarWrite B))
  encode_consent_state encrypted passphrase profile = do
    state ← reads (load_sidecar_state passphrase)
    normalized ← lift (normalize_state p state)
    prepared ←
        prepare_sidecar_write f (current consent) (f.dumps_indented (obj normalized)) "consent"
          encrypted (some passphrase) profile
    pure (some prepared)

  -- Under `_state_lock`.
  abbrev pub prepare_consent_locked :
      Bool → String → Option EncryptionProfile → Bool → Exec W (Option (PreparedSidecarWrite B))
  prepare_consent_locked encrypted passphrase profile held = do
    reads (f.sidecar_lock consent)
    exists ← reads (f.private_file_exists (current consent))
    if exists then encode_consent_state encrypted passphrase profile else pure none

  unfoldable pub prepare_consent_sidecar_migration :
      Bool
      → Bool
      → String
      → Option EncryptionProfile
      → Bool
      → Exec W (Option (PreparedSidecarWrite B))
  unfolding load_sidecar_state
  prepare_consent_sidecar_migration active encrypted passphrase profile allow_kdf_incomplete = do
    validated ← reads (validate_sidecar_passphrase_binding f (some passphrase))
    kdf_write_guard f active allow_kdf_incomplete
        (prepare_consent_locked encrypted (or_given validated passphrase) profile)

  abbrev pub commit_consent_locked : PreparedSidecarWrite B → Bool → Exec W Bool
  commit_consent_locked prepared held = do
    reads (f.sidecar_lock consent)
    commit_prepared_sidecar f held prepared
    pure true

  unfoldable pub commit_consent_sidecar_migration :
      Bool → Option (PreparedSidecarWrite B) → Exec W Bool
  commit_consent_sidecar_migration active none = pure false
  commit_consent_sidecar_migration active (some prepared) =
      kdf_write_guard f active false (commit_consent_locked prepared)

  unfoldable pub migrate_consent_sidecar : Bool → Bool → String → Exec W Bool
  unfolding prepare_consent_sidecar_migration commit_consent_sidecar_migration
  migrate_consent_sidecar active encrypted passphrase = do
    prepared ← prepare_consent_sidecar_migration active encrypted passphrase none false
    commit_consent_sidecar_migration active prepared
