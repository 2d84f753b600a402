-- ===== src/Migration/Resume.antt =====
-- agent_personal_vault/kdf_migration.py: `resume_kdf_migration`.
use agent_personal_vault.Prelude.{
  String, Bool, true, ◌==◌, Option, none, some, List, [], ◌∷◌, ◌++◌, if◌then◌else◌,
}
use agent_personal_vault.Result.{value_error, key_error, require}
use agent_personal_vault.Exec.{Exec, pure, raise, lift, reads, ◌>>=◌, ◌>>◌}
use agent_personal_vault.Platform.{Platform}
use agent_personal_vault.Crypto.{argon2id_v2_profile}
use agent_personal_vault.Files.{
  Member, vault, consent, audit, FileName, current, backup, next, journal, has_member, Files,
}
use agent_personal_vault.Files.Save.{write_private_json}
use agent_personal_vault.Guard.{migration_incomplete, kdf_write_guard}
use agent_personal_vault.Migration.{
  Present, names, sorted_names, Staged, preparing, ready, MigrationJournal, member_name,
}
use agent_personal_vault.Migration.Journal.{journal_of}
use agent_personal_vault.Migration.Each.{each}
use agent_personal_vault.Migration.Targets.{read_file, verify_target_round_trips}
use agent_personal_vault.Migration.Staging.{Report, recover_preparing}
use agent_personal_vault.Migration.Checks.{
  load_journal, validate_completed_profile, hash_current, all_target, check_member, complete_target,
}

module _ {W B : Type 0} (f : Files W B) where
  unfoldable pub remove_each : (Member → FileName) → List Member → Exec W (Unit {0})
  remove_each path [] = pure tt
  remove_each path (m ∷ ms) = do f.remove_private_file (path m); remove_each path ms

  -- `_cleanup`
  unfoldable pub cleanup : List Member → Exec W (Unit {0})
  unfolding remove_each
  cleanup member_names = do
    remove_each next (f.set_order member_names)
    remove_each backup (f.set_order member_names)
    f.remove_private_file journal
    pure tt

  -- `write_private_bytes(members[name].path, target_bytes[name])`
  abbrev pub write_target : Member → Option B → Exec W (Unit {0})
  write_target m none = raise (key_error (member_name m))
  write_target m (some target) = f.write_private_bytes (current m) target

  unfoldable pub replace_current : Member → Staged → Option B → B → Exec W (Unit {0})
  replace_current m s target payload =
      if f.sha256 payload == s.original.sha256
      then write_target m target
      else lift (
          require (f.sha256 payload == s.target.sha256)
            (value_error "migration target changed; rollback required"))

  abbrev pub write_applied : Present Staged → List Member → Exec W (List Member)
  write_applied staged applied = do
    write_private_json f journal (journal_of (ready staged) applied)
    pure applied

  -- `if name not in journal["applied"]: …`
  unfoldable pub record_applied : Present Staged → Member → List Member → Exec W (List Member)
  record_applied staged m applied =
      if has_member m applied then pure applied else write_applied staged (applied ++ (m ∷ []))

  -- One round of the loop that replaces the files.
  unfoldable pub apply_member :
      Present Staged → Member → Staged × Option B → List Member → Exec W (List Member)
  unfolding replace_current record_applied
  apply_member staged m t applied = do
    payload ← reads (read_file f (current m))
    replace_current m (t.0) (t.1) payload
    applied_payload ← reads (read_file f (current m))
    lift (
        require (f.sha256 applied_payload == t.0.target.sha256)
          (value_error "migration target verification failed"))
    record_applied staged m applied

  abbrev pub apply_if :
      Present Staged → Member → Option (Staged × Option B) → List Member → Exec W (List Member)
  apply_if staged m none applied = pure applied
  apply_if staged m (some t) applied = apply_member staged m t applied

  abbrev pub completed_report : List Member → Report
  completed_report members = record {
    state = "completed";
    members = members;
    profile = argon2id_v2_profile.name;
  }

  abbrev pub apply_all :
      Present Staged → Present (Staged × Option B) → List Member → Exec W (List Member)
  apply_all staged targets applied = do
    after_vault ← apply_member staged vault targets.of_vault applied
    after_consent ← apply_if staged consent targets.of_consent after_vault
    apply_if staged audit targets.of_audit after_consent

  -- From a ready journal.
  unfoldable pub resume_ready : String → Present Staged → List Member → Exec W Report
  unfolding cleanup apply_member
  resume_ready passphrase staged applied = do
    hashes ← each (λ m s. reads (hash_current f m s)) staged
    targets ← each (λ m h. reads (check_member f (all_target f hashes) passphrase m h)) hashes
    complete ← each (λ m t. reads (complete_target f m t)) targets
    lift (verify_target_round_trips f complete passphrase none)
    apply_all staged targets applied
    cleanup (names staged)
    pure (completed_report (sorted_names staged))

module _ {W B : Type 0} (p : Platform) (f : Files W B) where
  abbrev pub resume_journal : Bool → String → MigrationJournal → Exec W Report
  resume_journal held passphrase j = elim j.members [
    | ready staged ↦ resume_ready f passphrase staged j.applied
    | preparing first ↦ do
      staged ← recover_preparing p f held passphrase first j.applied
      resume_ready f passphrase staged j.applied
  ]

  abbrev pub already_completed : String → Exec W Report
  already_completed passphrase = do
    members ← reads (validate_completed_profile f passphrase argon2id_v2_profile)
    pure (record {
      state = "already_completed";
      members = members;
      profile = argon2id_v2_profile.name;
    })

  abbrev pub resume_incomplete : Bool → String → Exec W Report
  resume_incomplete held passphrase = do
    j ← reads (load_journal f)
    resume_journal held passphrase j

  abbrev pub resume_guarded : String → Bool → Exec W Report
  resume_guarded passphrase held = do
    incomplete ← reads (migration_incomplete f)
    if incomplete then resume_incomplete held passphrase else already_completed passphrase

  unfoldable pub resume_kdf_migration : Bool → String → Exec W Report
  unfolding kdf_write_guard load_journal validate_completed_profile recover_preparing resume_ready
  resume_kdf_migration active passphrase = kdf_write_guard f active true (resume_guarded passphrase)
