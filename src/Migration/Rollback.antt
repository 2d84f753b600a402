-- ===== src/Migration/Rollback.antt =====
-- agent_personal_vault/kdf_migration.py: `rollback_kdf_migration`.
use agent_personal_vault.Prelude.{String, Bool, true, ◌==◌, ◌&&◌, List, if◌then◌else◌}
use agent_personal_vault.Result.{value_error, require}
use agent_personal_vault.Exec.{Exec, pure, lift, reads, ◌>>=◌, ◌>>◌}
use agent_personal_vault.Crypto.{legacy_v1_profile}
use agent_personal_vault.Files.{Member, current, Files}
use agent_personal_vault.Guard.{migration_incomplete, kdf_write_guard}
use agent_personal_vault.Migration.{
  Present, names, sorted_names, same_names, Stamp, Staged, preparing, ready, MigrationJournal,
}
use agent_personal_vault.Migration.Each.{each}
use agent_personal_vault.Migration.Targets.{read_file, read_present_originals, open_vault}
use agent_personal_vault.Migration.Staging.{Report}
use agent_personal_vault.Migration.Checks.{
  load_journal, validate_completed_profile, validated_original, all_unchanged,
}
use agent_personal_vault.Migration.Resume.{cleanup}

module _ {W B : Type 0} (f : Files W B) where
  unfoldable pub restore_member : Member → Staged × B → Exec W (Unit {0})
  restore_member m t = do
    f.write_private_bytes (current m) (t.1)
    payload ← reads (read_file f (current m))
    lift (
        require (f.sha256 payload == t.0.original.sha256)
          (value_error "migration rollback verification failed"))

  -- From a ready journal.
  unfoldable pub restore_ready : String → Present Staged → Exec W (Unit {0})
  unfolding restore_member
  restore_ready passphrase staged = do
    originals ← each (λ m s. reads (validated_original f passphrase m s)) staged
    lift (open_vault f (originals.of_vault.1) passphrase)
    each restore_member originals
    pure tt

  -- From a preparing journal, where no file was replaced.
  abbrev pub check_sources : Present Stamp → Exec W (Unit {0})
  check_sources first = do
    found ← reads (read_present_originals f)
    lift (
        require (same_names found first && all_unchanged f found first)
          (value_error "migration source changed; rollback cannot continue"))

  abbrev pub rolled_back : List Member → Report
  rolled_back members = record {
    state = "rolled_back";
    members = members;
    profile = legacy_v1_profile.name;
  }

  abbrev pub rollback_journal : String → MigrationJournal → Exec W Report
  rollback_journal passphrase j = elim j.members [
    | preparing first ↦ do
      check_sources first
      cleanup f (names first)
      pure (rolled_back (sorted_names first))
    | ready staged ↦ do
      restore_ready passphrase staged
      cleanup f (names staged)
      pure (rolled_back (sorted_names staged))
  ]

  abbrev pub already_rolled_back : String → Exec W Report
  already_rolled_back passphrase = do
    members ← reads (validate_completed_profile f passphrase legacy_v1_profile)
    pure (record {
      state = "already_rolled_back";
      members = members;
      profile = legacy_v1_profile.name;
    })

  abbrev pub rollback_incomplete : String → Exec W Report
  rollback_incomplete passphrase = do j ← reads (load_journal f); rollback_journal passphrase j

  abbrev pub rollback_guarded : String → Bool → Exec W Report
  rollback_guarded passphrase held = do
    incomplete ← reads (migration_incomplete f)
    if incomplete then rollback_incomplete passphrase else already_rolled_back passphrase

  unfoldable pub rollback_kdf_migration : Bool → String → Exec W Report
  unfolding kdf_write_guard load_journal validate_completed_profile restore_ready
  rollback_kdf_migration active passphrase =
      kdf_write_guard f active true (rollback_guarded passphrase)
