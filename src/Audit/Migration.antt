-- ===== src/Audit/Migration.antt =====
-- agent_personal_vault/audit.py: the audit log when the vault's encryption changes.
use agent_personal_vault.Prelude.{
  String, Bool, true, false, Option, none, some, List, [], ◌∷◌, if◌then◌else◌,
}
use agent_personal_vault.Result.{Error, Result, ok, err, value_error, instead_of_decode_error}
use agent_personal_vault.Exec.{Exec, pure, lift, reads, ◌>>=◌, ◌>>◌}
use agent_personal_vault.Python.Json.{Json, obj}
use agent_personal_vault.Limits.{validate_json_resources, max_audit_bytes}
use agent_personal_vault.Crypto.{EncryptionProfile}
use agent_personal_vault.Files.{audit, current, Files}
use agent_personal_vault.Guard.{kdf_write_guard}
use agent_personal_vault.Sidecar.{or_given, validate_sidecar_passphrase_binding}
use agent_personal_vault.Sidecar.Read.{read_sidecar_bytes}
use agent_personal_vault.Sidecar.Write.{
  PreparedSidecarWrite, prepare_sidecar_write, commit_prepared_sidecar,
}

abbrev pub audit_invalid : Error
audit_invalid = value_error "audit state is invalid"

-- From what `json.loads` of one line gives, or the error that it raises.
abbrev pub check_event : Error → Option Json → Result (Unit {0})
check_event e (some (obj event)) = validate_json_resources (obj event)
check_event e none = err (instead_of_decode_error audit_invalid e)
check_event e _ = err audit_invalid

module _ {W B : Type 0} (f : Files W B) where
  -- The loop over the lines.
  unfoldable pub check_event_lines : List B → Result (Unit {0})
  check_event_lines [] = ok tt
  check_event_lines (raw_line ∷ lines) =
      elim (if f.is_blank raw_line
        then ok tt
        else check_event (f.cipher.loads_error raw_line) (f.cipher.loads raw_line)) [
          | err e ↦ err e
          | ok _ ↦ check_event_lines lines
        ]

  abbrev pub encode_audit_log :
      Bool → String → Option EncryptionProfile → Exec W (Option (PreparedSidecarWrite B))
  encode_audit_log encrypted passphrase profile = do
    plaintext ←
        reads (read_sidecar_bytes f (current audit) "audit" (some passphrase) max_audit_bytes)
    lift (check_event_lines (f.splitlines plaintext))
    prepared ←
        prepare_sidecar_write f (current audit) plaintext "audit" encrypted (some passphrase)
          profile
    pure (some prepared)

  -- Under `_audit_state_lock`.
  abbrev pub prepare_audit_locked :
      Bool → String → Option EncryptionProfile → Bool → Exec W (Option (PreparedSidecarWrite B))
  prepare_audit_locked encrypted passphrase profile held = do
    reads (f.sidecar_lock audit)
    exists ← reads (f.private_file_exists (current audit))
    if exists then encode_audit_log encrypted passphrase profile else pure none

  unfoldable pub prepare_audit_sidecar_migration :
      Bool
      → Bool
      → String
      → Option EncryptionProfile
      → Bool
      → Exec W (Option (PreparedSidecarWrite B))
  unfolding check_event_lines
  prepare_audit_sidecar_migration active encrypted passphrase profile allow_kdf_incomplete = do
    validated ← reads (validate_sidecar_passphrase_binding f (some passphrase))
    kdf_write_guard f active allow_kdf_incomplete
        (prepare_audit_locked encrypted (or_given validated passphrase) profile)

  abbrev pub commit_audit_locked : PreparedSidecarWrite B → Bool → Exec W Bool
  commit_audit_locked prepared held = do
    reads (f.sidecar_lock audit)
    commit_prepared_sidecar f held prepared
    pure true

  unfoldable pub commit_audit_sidecar_migration :
      Bool → Option (PreparedSidecarWrite B) → Exec W Bool
  commit_audit_sidecar_migration active none = pure false
  commit_audit_sidecar_migration active (some prepared) =
      kdf_write_guard f active false (commit_audit_locked prepared)

  unfoldable pub migrate_audit_sidecar : Bool → Bool → String → Exec W Bool
  unfolding prepare_audit_sidecar_migration commit_audit_sidecar_migration
  migrate_audit_sidecar active encrypted passphrase = do
    prepared ← prepare_audit_sidecar_migration active encrypted passphrase none false
    commit_audit_sidecar_migration active prepared
