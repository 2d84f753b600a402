-- ===== src/Tests/Migrations.antt =====
-- The theorems of the key migration at concrete inputs.
use agent_personal_vault.Prelude.{◌≡◌, refl, subst, inl, inr, false, none, some, [], ltb}
use agent_personal_vault.Result.{Error, ok, err, ◌>>=◌}
use agent_personal_vault.Python.Text.{size, utf8_size}
use agent_personal_vault.Python.Json.{obj}
use agent_personal_vault.Limits.{
  max_private_json_bytes, validate_json_resources, require_text_limit,
}
use agent_personal_vault.Files.{Member, vault, consent, audit, current, backup, next, journal}
use agent_personal_vault.Files.Load.{read_private_json-reads}
use agent_personal_vault.Migration.{Present, Staged, ready, MigrationJournal, stamp}
use agent_personal_vault.Migration.Journal.{journal_fields, is_hash, validate_journal}
use agent_personal_vault.Migration.Checks.{load_journal}
use agent_personal_vault.Migration.Resume.{resume_kdf_migration}
use agent_personal_vault.Migration.Rollback.{rollback_kdf_migration}
use agent_personal_vault.Migration.Printed.{IsStaged, validate-journal_fields}
use agent_personal_vault.Migration.Held.{Every, CurrentIs, IsEither, BackupIs, Recoverable}
use agent_personal_vault.Migration.Stuck.{Lost, lost_backup_is_stuck}
use agent_personal_vault.Migration.Outcome.{resume_kdf_migration-Recoverable}
use agent_personal_vault.Tests.Notation.{dumps_text, loads-dumps_text}
use agent_personal_vault.Tests.Desk.{platform}
use agent_personal_vault.Tests.Seals.{passphrase}
use agent_personal_vault.Tests.Disk.{Disk, set_file, disk_files, disk_files-FilesLaws}

-- A migration of a vault alone, from three bytes to four.
abbrev staged_vault : Staged
staged_vault = record {
  original = stamp disk_files "old";
  target = stamp disk_files "new!";
  backup = stamp disk_files "old";
}

abbrev staged : Present Staged
staged = record { of_vault = staged_vault; of_consent = none; of_audit = none }

abbrev ready_journal : MigrationJournal
ready_journal = record { members = ready staged; applied = [] }

vault_stamps : IsStaged staged_vault
unfolding is_hash
vault_stamps = (
  record { hash = refl; positive = refl },
  record { hash = refl; positive = refl },
  record { hash = refl; positive = refl },
)

journal_validates : validate_journal (obj (journal_fields ready_journal)) ≡ ok ready_journal
journal_validates = validate-journal_fields (ready staged) [] (vault_stamps, tt, tt) tt

validate-journal_fields_example :
    validate_journal (obj (journal_fields ready_journal)) ≡ ok ready_journal
validate-journal_fields_example =
    validate-journal_fields (ready staged) [] (vault_stamps, tt, tt) tt

-- The rollback has restored the vault and has removed its backup, and stopped before it removed the
-- journal.
abbrev interrupted : Disk
interrupted = record {
  files = λ n. elim n [
    | current vault ↦ some "old"
    | journal ↦ some (dumps_text (obj (journal_fields ready_journal)))
    | _ ↦ none
  ];
}

journal_size :
    ltb max_private_json_bytes (size (dumps_text (obj (journal_fields ready_journal)))) ≡ false
unfolding dumps_text journal_fields
journal_size = refl

journal_valid : validate_json_resources (obj (journal_fields ready_journal)) ≡ ok tt
unfolding validate_json_resources journal_fields ◌>>=◌ require_text_limit utf8_size
journal_valid = refl

loads_journal :
    (w : Disk)
    → w.files journal ≡ some (dumps_text (obj (journal_fields ready_journal)))
    → load_journal disk_files w ≡ ok ready_journal
unfolding load_journal ◌>>=◌
loads_journal w there =
    rw
      (
        there,
        read_private_json-reads disk_files journal w
            (dumps_text (obj (journal_fields ready_journal))) (obj (journal_fields ready_journal))
            (rw (there, journal_size) refl) (loads-dumps_text (obj (journal_fields ready_journal)))
            journal_valid,
        journal_validates,
      )
      refl

lost : Lost disk_files staged interrupted
lost = record {
  applied = [];
  incomplete = refl;
  loads = loads_journal interrupted refl;
  member = vault;
  record_of_member = staged_vault;
  listed = refl;
  missing = refl;
  other = vault;
  record_of_other = staged_vault;
  other_listed = refl;
  payload = "old";
  reads_other = refl;
  not_target = refl;
}

lost_backup_is_stuck_example :
    ((e : Error) × (rollback_kdf_migration disk_files false passphrase interrupted
        ≡ (err e, interrupted)))
    × ((e : Error) × (resume_kdf_migration platform disk_files false passphrase interrupted
          ≡ (err e, interrupted)))
lost_backup_is_stuck_example =
    lost_backup_is_stuck disk_files staged passphrase interrupted lost platform false

-- The staging is complete, and no file is replaced yet.
abbrev staged_disk : Disk
staged_disk = set_file (backup vault) (some "old") (set_file (next vault) (some "new!") interrupted)

vault-Every :
    (P : Member → Staged → Disk → Type 0) (w : Disk) → P vault staged_vault w → Every P staged w
vault-Every P w h vault s e = subst (λ x. P vault x w) (some_inj e) h
  where
    some_inj : {x y : Staged} → some x ≡ some y → x ≡ y
    some_inj q = cc
vault-Every P w h consent s e = absurd (cc)
vault-Every P w h audit s e = absurd (cc)

staged_disk-Recoverable : Recoverable disk_files disk_files-FilesLaws staged staged_disk
staged_disk-Recoverable = record {
  either =
      vault-Every
        (CurrentIs disk_files disk_files-FilesLaws (IsEither disk_files disk_files-FilesLaws))
        staged_disk (record { bytes = "old"; there = refl; holds = inl refl });
  safe = inr (
      vault-Every (BackupIs disk_files disk_files-FilesLaws) staged_disk
        (record { bytes = "old"; there = refl; holds = refl }));
}

resume_kdf_migration-Recoverable_example :
    Recoverable disk_files disk_files-FilesLaws staged
      (resume_kdf_migration platform disk_files false passphrase staged_disk).1
resume_kdf_migration-Recoverable_example =
    resume_kdf_migration-Recoverable platform disk_files disk_files-FilesLaws staged [] false
      passphrase staged_disk (loads_journal staged_disk refl) staged_disk-Recoverable
