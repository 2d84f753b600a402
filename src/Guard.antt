-- ===== src/Guard.antt =====
-- agent_personal_vault/migration_guard.py, for one vault path. Whether the guard is already held, as
-- `_ACTIVE_GUARDS` tells, is an argument; the block under the guard is given that it is.
pub mod Blocked
use agent_personal_vault.Prelude.{Bool, true, false, not, ◌&&◌, if◌then◌else◌}
use agent_personal_vault.Result.{Error, Result, incomplete_error, raise_if}
use agent_personal_vault.Exec.{Exec, pure, lift, reads, ◌>>=◌, ◌>>◌}
use agent_personal_vault.Files.{journal, Files}

abbrev pub migration_is_incomplete : Error
migration_is_incomplete =
    incomplete_error "encryption migration is incomplete; use resume or rollback"

module _ {W B : Type 0} (f : Files W B) where
  abbrev pub migration_incomplete : W → Result Bool
  migration_incomplete = f.private_file_exists journal

  -- `if migration_incomplete(vault_path) and not allow_incomplete: raise …`
  abbrev pub check_complete : Bool → Exec W (Unit {0})
  check_complete allow_incomplete = do
    incomplete ← reads migration_incomplete
    lift (raise_if (incomplete && not allow_incomplete) migration_is_incomplete)

  -- The lock is taken once.
  abbrev pub enter : Bool → Exec W (Unit {0})
  enter active = if active then pure tt else reads f.migration_lock

  unfoldable pub kdf_write_guard :
      {A : Type 0} → (active allow_incomplete : Bool) → (Bool → Exec W A) → Exec W A
  kdf_write_guard active allow_incomplete body = do
    enter active
    check_complete allow_incomplete
    body true
