-- ===== src/Migration/Outcome.antt =====
-- `resume_kdf_migration` of agent_personal_vault/kdf_migration.py from the files of a ready migration.
use agent_personal_vault.Prelude.{◌≡◌, refl, sym, subst, String, Bool, true, List}
use agent_personal_vault.Result.{ok, >>=-eq_ok, require-eq_ok}
use agent_personal_vault.Exec.{continue, Returns, Returns-at}
use agent_personal_vault.Platform.{Platform}
use agent_personal_vault.Files.{Member, journal, Files, FilesLaws}
use agent_personal_vault.Guard.Blocked.{kdf_write_guard-keeps, kdf_write_guard-Returns_allowed}
use agent_personal_vault.Migration.{Present, Staged, ready, MigrationJournal}
use agent_personal_vault.Migration.Staging.{Report}
use agent_personal_vault.Migration.Checks.{load_journal}
use agent_personal_vault.Migration.Resume.{resume_ready, resume_guarded, resume_kdf_migration}
use agent_personal_vault.Migration.Held.{Recoverable}
use agent_personal_vault.Migration.Resumed.{
  Completed, resume_ready-Recoverable, resume_ready-Completed,
}

module _ {W B : Type 0} (f : Files W B) where
  -- A journal that was loaded is there.
  pub load_journal-incomplete :
      (w : W) (j : MigrationJournal)
      → load_journal f w ≡ ok j
      → f.private_file_exists journal w ≡ ok true
  unfolding load_journal
  load_journal-incomplete w j e =
      let (b, exists, e1) = >>=-eq_ok _ _ e in
      let (_, required, _) = >>=-eq_ok _ _ e1 in
      let is : b ≡ true = require-eq_ok _ _ required in rw (sym is) exists

module _ {W B : Type 0} (p : Platform) (f : Files W B) (laws : FilesLaws f)
    (staged : Present Staged) (applied : List Member) (active : Bool) (passphrase : String) where
  pub resume_guarded-ready :
      (w : W)
      → load_journal f w ≡ ok (record { members = ready staged; applied = applied })
      → resume_guarded p f passphrase true w ≡ resume_ready f passphrase staged applied w
  unfolding continue
  resume_guarded-ready w loads = rw (load_journal-incomplete f w _ loads, loads) refl

  -- If the journal is ready, each member's file is the original or the target, and all files are
  -- targets or all backups are there, then the same holds of the files after a resume, whatever the
  -- resume ends in and wherever it stops.
  pub resume_kdf_migration-Recoverable :
      (w : W)
      → load_journal f w ≡ ok (record { members = ready staged; applied = applied })
      → Recoverable f laws staged w
      → Recoverable f laws staged (resume_kdf_migration p f active passphrase w).1
  unfolding resume_kdf_migration
  resume_kdf_migration-Recoverable w loads here =
      kdf_write_guard-keeps f (Recoverable f laws staged) active true
        (resume_guarded p f passphrase) w here
        (subst (λ r. Recoverable f laws staged r.1) (sym (resume_guarded-ready w loads))
          (resume_ready-Recoverable f laws staged passphrase applied w here))

  -- If the journal is ready and a resume returns, then each member's file is the target, and the journal
  -- is gone.
  pub resume_completes :
      (w w' : W) (report : Report)
      → load_journal f w ≡ ok (record { members = ready staged; applied = applied })
      → resume_kdf_migration p f active passphrase w ≡ (ok report, w')
      → Completed f laws staged w'
  unfolding resume_kdf_migration
  resume_completes w w' report loads returned =
      Returns-at
        (kdf_write_guard-Returns_allowed f active (resume_guarded p f passphrase) w (
          subst (λ r. Returns (λ _ v. Completed f laws staged v) r)
            (sym (resume_guarded-ready w loads))
            (resume_ready-Completed f laws staged passphrase applied w)))
        returned
