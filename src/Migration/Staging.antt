-- ===== src/Migration/Staging.antt =====
-- agent_personal_vault/kdf_migration.py: the targets of a migration, its backups, staging files and
-- journal.
use agent_personal_vault.Prelude.{String, Bool, true, false, Option, none, some, List, []}
use agent_personal_vault.Result.{Result, value_error, require}
use agent_personal_vault.Exec.{Exec, pure, lift, reads, ◌>>=◌, ◌>>◌}
use agent_personal_vault.Python.Json.{Fields}
use agent_personal_vault.Platform.{Platform}
use agent_personal_vault.Crypto.{argon2id_v2_profile}
use agent_personal_vault.Crypto.Store.{encrypt_store_payload, encrypt_sidecar_payload}
use agent_personal_vault.Files.{Member, vault, backup, next, journal, Files}
use agent_personal_vault.Files.Load.{parse}
use agent_personal_vault.Files.Save.{write_private_json}
use agent_personal_vault.Guard.{kdf_write_guard}
use agent_personal_vault.Sidecar.Write.{PreparedSidecarWrite, urandom}
use agent_personal_vault.Consent.Migration.{prepare_consent_sidecar_migration}
use agent_personal_vault.Audit.Migration.{prepare_audit_sidecar_migration}
use agent_personal_vault.Migration.{
  Present, sorted_names, same_names, map_present, Stamp, Staged, preparing, ready, member_name,
  stamp,
}
use agent_personal_vault.Migration.Each.{each}
use agent_personal_vault.Migration.Entries.{StagedEntry, entries_of, check_source, ready_of}
use agent_personal_vault.Migration.Journal.{journal_of}
use agent_personal_vault.Migration.Checks.{all_unchanged}
use agent_personal_vault.Migration.Targets.{
  read_present_originals, open_vault, verify_target_round_trips,
}

-- What a command reports.
pub record Report : Type 0 where
  pub state : String
  pub members : List Member
  pub profile : String

-- `_prepared_payload`
abbrev pub prepared_payload : {B : Type 0} → Option (PreparedSidecarWrite B) → Option B
prepared_payload none = none
prepared_payload (some prepared) = some prepared.payload

module _ {W B : Type 0} (p : Platform) (f : Files W B) where
  -- The encrypted vault of the target profile.
  abbrev pub encrypt_target : Fields → String → Exec W B
  encrypt_target store passphrase = do
    salt ← urandom f 16
    nonce ← urandom f 12
    envelope ←
        lift (encrypt_store_payload f.cipher store passphrase true argon2id_v2_profile salt nonce)
    pure (f.dumps_indented envelope)

  unfoldable pub prepare_targets : Bool → String → Bool → Exec W (Present B × Present B)
  unfolding read_present_originals open_vault
  prepare_targets active passphrase allow_kdf_incomplete = do
    originals ← reads (read_present_originals f)
    vault_payload ← lift (parse f originals.of_vault)
    lift (check_source f vault_payload)
    store ← lift (open_vault f originals.of_vault passphrase)
    for_vault ← encrypt_target store passphrase
    prepared_consent ←
        prepare_consent_sidecar_migration p f active true passphrase (some argon2id_v2_profile)
          allow_kdf_incomplete
    prepared_audit ←
        prepare_audit_sidecar_migration f active true passphrase (some argon2id_v2_profile)
          allow_kdf_incomplete
    let targets : Present B = record {
      of_vault = for_vault;
      of_consent = prepared_payload prepared_consent;
      of_audit = prepared_payload prepared_audit;
    }
    lift
        (require (same_names targets originals) (value_error "migration member set changed; retry"))
    lift (verify_target_round_trips f targets passphrase (some store))
    pure (originals, targets)

  abbrev pub encrypt_backup : String → B → String → Exec W B
  encrypt_backup kind payload passphrase = do
    salt ← urandom f 16
    nonce ← urandom f 12
    envelope ←
        lift
          (encrypt_sidecar_payload f.cipher payload passphrase kind argon2id_v2_profile salt nonce)
    pure (f.dumps_indented envelope)

  abbrev pub backup_payload : String → Member → B → Exec W B
  backup_payload passphrase vault payload = pure payload
  backup_payload passphrase m payload = encrypt_backup (member_name m) payload passphrase

  abbrev pub write_entry : Member → StagedEntry B → Exec W (Unit {0})
  write_entry m e = do
    f.write_private_bytes (backup m) e.staged_backup
    f.write_private_bytes (next m) e.target

  -- What the first journal has of each member and has applied is given; the ready members come back.
  unfoldable pub write_staging :
      Present B → Present B → Present Stamp → List Member → String → Exec W (Present Staged)
  unfolding entries_of ready_of
  write_staging originals targets first applied passphrase = do
    backups ← each (backup_payload passphrase) originals
    entries ← lift (entries_of originals backups targets)
    each write_entry entries
    staged ← lift (ready_of f entries first)
    write_private_json f journal (journal_of (ready staged) applied)
    pure staged

  abbrev pub ready_report : Present Staged → Report
  ready_report staged = record {
    state = "ready";
    members = sorted_names staged;
    profile = argon2id_v2_profile.name;
  }

  abbrev pub prepare_guarded : String → Bool → Exec W Report
  prepare_guarded passphrase held = do
    (originals, targets) ← prepare_targets held passphrase false
    let first : Present Stamp = map_present (stamp f) originals
    write_private_json f journal (journal_of (preparing first) [])
    staged ← write_staging originals targets first [] passphrase
    pure (ready_report staged)

  unfoldable pub prepare_kdf_migration : Bool → String → Exec W Report
  unfolding kdf_write_guard prepare_targets write_staging
  prepare_kdf_migration active passphrase =
      kdf_write_guard f active false (prepare_guarded passphrase)

  abbrev pub check_first_names : Present B → Present Stamp → Result (Unit {0})
  check_first_names found first =
      require (same_names found first)
        (value_error "migration member set changed; rollback required")

  unfoldable pub recover_preparing :
      Bool → String → Present Stamp → List Member → Exec W (Present Staged)
  unfolding prepare_targets write_staging
  recover_preparing active passphrase first applied = do
    found ← reads (read_present_originals f)
    lift (check_first_names found first)
    lift (
        require (all_unchanged f found first)
          (value_error "migration source changed; rollback required"))
    (originals, targets) ← prepare_targets active passphrase true
    write_staging originals targets first applied passphrase
