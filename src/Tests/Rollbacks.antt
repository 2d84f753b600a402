-- ===== src/Tests/Rollbacks.antt =====
-- A rollback that returns, at a concrete input.
use agent_personal_vault.Prelude.{
  String, ◌≡◌, refl, Bool, ◌||◌, true, false, none, some, [], ◌∷◌, ltb, ◌==◌, eq_refl, nat_eq,
  arith, ℕ,
}
use agent_personal_vault.Result.{ok, ◌>>=◌}
use agent_personal_vault.Exec.{continue}
use agent_personal_vault.Python.Text.{size, utf8_size}
use agent_personal_vault.Python.Json.{Fields}
use agent_personal_vault.Python.Sorted.{sorted_fields, insert}
use agent_personal_vault.Limits.{
  max_private_json_bytes, validate_json_resources, require_text_limit,
}
use agent_personal_vault.Crypto.{legacy_v1_profile}
use agent_personal_vault.Crypto.Codec.{envelope_of}
use agent_personal_vault.Crypto.Store.{seal_parts}
use agent_personal_vault.Files.{vault, current, backup, next, journal}
use agent_personal_vault.Guard.{kdf_write_guard}
use agent_personal_vault.Migration.{Staged, ready, stamp}
use agent_personal_vault.Migration.Journal.{journal_fields, is_hash}
use agent_personal_vault.Migration.Targets.{open_vault}
use agent_personal_vault.Migration.Staging.{Report}
use agent_personal_vault.Migration.Checks.{load_journal, validated_original}
use agent_personal_vault.Migration.Resume.{cleanup}
use agent_personal_vault.Migration.Rollback.{
  restore_ready, rollback_journal, rollback_kdf_migration,
}
use agent_personal_vault.Migration.Printed.{IsStaged}
use agent_personal_vault.Migration.RolledBack.{
  RolledBack, rollback_guarded-ready, rollback_restores,
}
use agent_personal_vault.Tests.Notation.{dumps_text}
use agent_personal_vault.Tests.Seals.{profile_store, passphrase}
use agent_personal_vault.Tests.Disk.{Disk, digest, disk_files, disk_files-FilesLaws}
use agent_personal_vault.Tests.Resumes.{
  vault_text, one, journal_text, loads_one, opens_vault, vault_size,
}

abbrev from_text : String → Staged
from_text text = record {
  original = stamp disk_files text;
  target = stamp disk_files "new!";
  backup = stamp disk_files text;
}

-- The file of the vault is replaced.
abbrev disk_from : String → Disk
disk_from text = record {
  files = λ n. elim n [
    | current vault ↦ some "new!"
    | backup vault ↦ some text
    | next vault ↦ some "new!"
    | journal ↦ some (journal_text (from_text text))
    | _ ↦ none
  ];
}

from_vault-IsStaged : IsStaged (from_text vault_text)
unfolding is_hash dumps_text envelope_of seal_parts sorted_fields insert
from_vault-IsStaged = (
  record { hash = refl; positive = refl },
  record { hash = refl; positive = refl },
  record { hash = refl; positive = refl },
)

loads_replaced :
    load_journal disk_files (disk_from vault_text)
    ≡ ok (record { members = ready (one (from_text vault_text)); applied = [] })
unfolding dumps_text journal_fields envelope_of seal_parts sorted_fields insert
    validate_json_resources ◌>>=◌ require_text_limit utf8_size
loads_replaced =
    loads_one (from_text vault_text) (disk_from vault_text) from_vault-IsStaged refl refl refl

abbrev rolled_back : Report
rolled_back = record {
  state = "rolled_back";
  members = vault ∷ [];
  profile = legacy_v1_profile.name;
}

nat_eq_refl : (n : ℕ) → nat_eq n n ≡ true
nat_eq_refl n = ground arith

or_true : (b : Bool) → (b || true) ≡ true
or_true b = ground arith

restored_from :
    (text : String) (store : Fields)
    → ltb max_private_json_bytes (size text) ≡ false
    → open_vault disk_files text passphrase ≡ ok store
    → (rollback_journal disk_files passphrase
        (record { members = ready (one (from_text text)); applied = [] })
        (disk_from text)).0
      ≡ ok rolled_back
unfolding restore_ready validated_original continue ◌>>=◌ cleanup
restored_from text store fits opens =
    rw
      (
        fits,
        nat_eq_refl (size text),
        eq_refl (digest text),
        or_true (digest "new!" == digest text),
        opens,
      )
      (rw (fits, eq_refl (digest text)) refl)

abbrev rolled_back_disk : Disk
rolled_back_disk = (rollback_kdf_migration disk_files false passphrase (disk_from vault_text)).1

rollback_returned :
    (rollback_kdf_migration disk_files false passphrase (disk_from vault_text)).0 ≡ ok rolled_back
unfolding rollback_kdf_migration kdf_write_guard continue
rollback_returned =
    rw
      (rollback_guarded-ready disk_files disk_files-FilesLaws (one (from_text vault_text))
        passphrase [] (disk_from vault_text) loads_replaced)
      (restored_from vault_text (sorted_fields profile_store) vault_size opens_vault)

rollback_restores_example :
    RolledBack disk_files disk_files-FilesLaws (one (from_text vault_text)) rolled_back_disk
rollback_restores_example =
    rollback_restores disk_files disk_files-FilesLaws (one (from_text vault_text)) [] false
      passphrase (disk_from vault_text) rolled_back_disk rolled_back loads_replaced
      (λ i. (rollback_returned i, rolled_back_disk))
