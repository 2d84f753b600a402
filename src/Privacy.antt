-- ===== src/Privacy.antt =====
-- agent_personal_vault/privacy.py: the removal of old metadata and of the whole state of a vault. The
-- removal of the state takes the locks of the three files; `active` says whether the guard of a
-- migration is held.
pub mod Disposed
use agent_personal_vault.Prelude.{ℕ, zero, String, ◌==◌, Bool, true, false, none, if◌then◌else◌}
use agent_personal_vault.Result.{Result, ok, err, value_error, require}
use agent_personal_vault.Exec.{Exec, pure, lift, reads, ◌>>=◌, ◌>>◌}
use agent_personal_vault.Python.Json.{Json, int, pos}
use agent_personal_vault.Platform.{Platform}
use agent_personal_vault.Host.{Host}
use agent_personal_vault.Consent.Retention.{prune_consent_records}
use agent_personal_vault.Audit.Log.{Loaded}
use agent_personal_vault.Audit.Retention.{prune_audit_events}
use agent_personal_vault.Files.{vault, consent, audit, current, Files}
use agent_personal_vault.Guard.{migration_incomplete, kdf_write_guard}

abbrev pub dispose_confirmation : String
dispose_confirmation = "delete local vault state"

-- `type(days) is not int or days < 1`
abbrev pub check_days : String → Json → Result (Unit {0})
check_days message (int (pos zero)) = err (value_error message)
check_days message (int (pos _)) = ok tt
check_days message _ = err (value_error message)

pub record PrunedMetadata : Type 0 where
  pub grants_removed : ℕ
  pub requests_removed : ℕ
  pub retained : ℕ
  pub audit_removed : ℕ
  pub audit_retained : ℕ
  pub audit_malformed_retained : ℕ

module _ {W : Type 0} (p : Platform) (loads : String → Loaded) (h : Host W) where
  unfoldable pub prune_private_metadata : Json → Json → Exec W PrunedMetadata
  prune_private_metadata consent_retention_days audit_retention_days = do
    lift (check_days "consent retention days must be a positive integer" consent_retention_days)
    lift (check_days "audit retention days must be a positive integer" audit_retention_days)
    consent_result ← prune_consent_records p h consent_retention_days none
    audit_result ← prune_audit_events p loads h audit_retention_days none
    pure (record {
      grants_removed = consent_result.grants_removed;
      requests_removed = consent_result.requests_removed;
      retained = consent_result.retained;
      audit_removed = audit_result.removed;
      audit_retained = audit_result.retained;
      audit_malformed_retained = audit_result.malformed_retained;
    })

-- What a disposal reports.
pub record Disposal : Type 0 where
  pub vault_removed : Bool
  pub consent_removed : Bool
  pub audit_removed : Bool

abbrev pub nothing_removed : Disposal
nothing_removed = record { vault_removed = false; consent_removed = false; audit_removed = false }

module _ {W B : Type 0} (f : Files W B) where
  -- `any(private_file_stat(data_path) is not None for data_path in data_paths)`
  abbrev pub any_file : Exec W Bool
  any_file = do
    has_vault ← reads (f.private_file_stat (current vault))
    if has_vault then pure true else (do
      has_consent ← reads (f.private_file_stat (current consent))
      if has_consent then pure true else reads (f.private_file_stat (current audit)))

  -- The files are looked for only if no migration is incomplete.
  abbrev pub has_state : Exec W Bool
  has_state = do
    incomplete ← reads (migration_incomplete f)
    if incomplete then pure true else any_file

  -- Under the guard.
  unfoldable pub remove_state : Bool → Exec W Disposal
  remove_state held = do
    reads (f.sidecar_lock vault)
    reads (f.sidecar_lock consent)
    reads (f.sidecar_lock audit)
    reads (f.private_file_stat (current vault))
    reads (f.private_file_stat (current consent))
    reads (f.private_file_stat (current audit))
    vault_removed ← f.remove_private_file (current vault)
    consent_removed ← f.remove_private_file (current consent)
    audit_removed ← f.remove_private_file (current audit)
    pure (record {
      vault_removed = vault_removed;
      consent_removed = consent_removed;
      audit_removed = audit_removed;
    })

  unfoldable pub dispose_private_state : Bool → String → Exec W Disposal
  unfolding kdf_write_guard remove_state
  dispose_private_state active confirmation = do
    lift (
        require (confirmation == dispose_confirmation)
          (value_error "private state disposal requires the exact confirmation phrase"))
    present ← has_state
    if present then kdf_write_guard f active false remove_state else pure nothing_removed
