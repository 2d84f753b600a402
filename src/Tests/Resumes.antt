-- ===== src/Tests/Resumes.antt =====
-- A resume and a rollback that return, at concrete inputs.
use agent_personal_vault.Prelude.{String, ◌≡◌, refl, false, none, some, [], ◌∷◌, ltb, eq_refl}
use agent_personal_vault.Result.{ok, ◌>>=◌}
use agent_personal_vault.Exec.{continue}
use agent_personal_vault.Python.Text.{size, utf8_size}
use agent_personal_vault.Python.Json.{obj, Fields, get}
use agent_personal_vault.Python.Sorted.{sorted_fields, insert}
use agent_personal_vault.Limits.{
  max_private_json_bytes, validate_json_resources, require_text_limit,
}
use agent_personal_vault.Crypto.Codec.{envelope_of}
use agent_personal_vault.Crypto.Store.{seal_parts}
use agent_personal_vault.Vault.Shape.{validate_store_shape}
use agent_personal_vault.Files.{vault, current, backup, next, journal}
use agent_personal_vault.Files.Load.{read_private_json-reads}
use agent_personal_vault.Files.Save.{write_private_json}
use agent_personal_vault.Guard.{kdf_write_guard}
use agent_personal_vault.Migration.{Present, Staged, ready, stamp}
use agent_personal_vault.Migration.Journal.{journal_fields, is_hash}
use agent_personal_vault.Migration.Targets.{open_vault, verify_target_round_trips}
use agent_personal_vault.Migration.Staging.{Report}
use agent_personal_vault.Crypto.{argon2id_v2_profile}
use agent_personal_vault.Migration.Checks.{load_journal, check_member}
use agent_personal_vault.Migration.Resume.{resume_ready, resume_kdf_migration}
use agent_personal_vault.Migration.Printed.{IsStaged, validate-journal_fields}
use agent_personal_vault.Migration.Resumed.{Completed}
use agent_personal_vault.Migration.Outcome.{resume_guarded-ready, resume_completes}
use agent_personal_vault.Tests.Notation.{dumps_text, loads-dumps_text}
use agent_personal_vault.Tests.Desk.{platform}
use agent_personal_vault.Tests.Seals.{profile_store, passphrase, envelope, envelope_opened}
use agent_personal_vault.Tests.Disk.{Disk, digest, disk_files, disk_files-FilesLaws}

-- The text of an encrypted vault.
abbrev pub vault_text : String
vault_text = dumps_text envelope

abbrev pub one : Staged → Present Staged
one s = record { of_vault = s; of_consent = none; of_audit = none }

abbrev pub journal_text : Staged → String
journal_text s =
    dumps_text (obj (journal_fields (record { members = ready (one s); applied = [] })))

pub loads_one :
    (s : Staged) (w : Disk)
    → IsStaged s
    → ltb max_private_json_bytes (size (journal_text s)) ≡ false
    → validate_json_resources
        (obj (journal_fields (record { members = ready (one s); applied = [] })))
      ≡ ok tt
    → w.files journal ≡ some (journal_text s)
    → load_journal disk_files w ≡ ok (record { members = ready (one s); applied = [] })
unfolding load_journal ◌>>=◌
loads_one s w is fits valid there =
    rw
      (
        there,
        read_private_json-reads disk_files journal w (journal_text s)
            (obj (journal_fields (record { members = ready (one s); applied = [] })))
            (rw (there, fits) refl)
            (loads-dumps_text
              (obj (journal_fields (record { members = ready (one s); applied = [] }))))
            valid,
        validate-journal_fields (ready (one s)) [] (is, tt, tt) tt,
      )
      refl

-- From three bytes to the vault.
abbrev to_text : String → Staged
to_text text = record {
  original = stamp disk_files "old";
  target = stamp disk_files text;
  backup = stamp disk_files "old";
}

abbrev to_vault : Staged
to_vault = to_text vault_text

to_vault-IsStaged : IsStaged to_vault
unfolding is_hash dumps_text envelope_of seal_parts sorted_fields insert
to_vault-IsStaged = (
  record { hash = refl; positive = refl },
  record { hash = refl; positive = refl },
  record { hash = refl; positive = refl },
)

abbrev disk_to : String → Disk
disk_to text = record {
  files = λ n. elim n [
    | current vault ↦ some "old"
    | backup vault ↦ some "old"
    | next vault ↦ some text
    | journal ↦ some (journal_text (to_text text))
    | _ ↦ none
  ];
}

abbrev staged_disk : Disk
staged_disk = disk_to vault_text

loads_staged :
    load_journal disk_files staged_disk
    ≡ ok (record { members = ready (one to_vault); applied = [] })
unfolding dumps_text journal_fields envelope_of seal_parts sorted_fields insert
    validate_json_resources ◌>>=◌ require_text_limit utf8_size
loads_staged = loads_one to_vault staged_disk to_vault-IsStaged refl refl refl

pub opens_vault : open_vault disk_files vault_text passphrase ≡ ok (sorted_fields profile_store)
unfolding open_vault ◌>>=◌ validate_store_shape get sorted_fields insert require_text_limit
    utf8_size
opens_vault = rw (loads-dumps_text envelope, envelope_opened) refl

verifies_vault :
    verify_target_round_trips disk_files
      (record { of_vault = vault_text; of_consent = none; of_audit = none })
      passphrase
      none
    ≡ ok tt
unfolding verify_target_round_trips ◌>>=◌
verifies_vault = rw (opens_vault) refl

abbrev completed : Report
completed = record { state = "completed"; members = vault ∷ []; profile = argon2id_v2_profile.name }

-- The journal after the vault was replaced.
abbrev applied_journal : String → Fields
applied_journal text =
    journal_fields (record { members = ready (one (to_text text)); applied = vault ∷ [] })

resumed_to :
    (text : String)
    → ltb max_private_json_bytes (size text) ≡ false
    → verify_target_round_trips disk_files
        (record { of_vault = text; of_consent = none; of_audit = none })
        passphrase
        none
      ≡ ok tt
    → validate_json_resources (obj (applied_journal text)) ≡ ok tt
    → ltb max_private_json_bytes (size (dumps_text (obj (applied_journal text)))) ≡ false
    → (resume_ready disk_files passphrase (one (to_text text)) [] (disk_to text)).0 ≡ ok completed
unfolding resume_ready continue check_member ◌>>=◌ write_private_json
resumed_to text fits verifies valid journal_fits =
    rw (fits, eq_refl (digest text), verifies, valid, journal_fits)
      (rw (fits, eq_refl (digest text)) refl)

applied_valid : validate_json_resources (obj (applied_journal vault_text)) ≡ ok tt
unfolding validate_json_resources journal_fields dumps_text envelope_of seal_parts sorted_fields
    insert ◌>>=◌ require_text_limit utf8_size
applied_valid = refl

applied_size :
    ltb max_private_json_bytes (size (dumps_text (obj (applied_journal vault_text)))) ≡ false
unfolding journal_fields dumps_text envelope_of seal_parts sorted_fields insert
applied_size = refl

pub vault_size : ltb max_private_json_bytes (size vault_text) ≡ false
unfolding dumps_text envelope_of seal_parts sorted_fields insert
vault_size = refl

abbrev resumed_disk : Disk
resumed_disk = (resume_kdf_migration platform disk_files false passphrase staged_disk).1

resume_returned :
    (resume_kdf_migration platform disk_files false passphrase staged_disk).0 ≡ ok completed
unfolding resume_kdf_migration kdf_write_guard continue
resume_returned =
    rw
      (resume_guarded-ready platform disk_files disk_files-FilesLaws (one to_vault) [] false
        passphrase staged_disk loads_staged)
      (resumed_to vault_text vault_size verifies_vault applied_valid applied_size)

resume_completes_example : Completed disk_files disk_files-FilesLaws (one to_vault) resumed_disk
resume_completes_example =
    resume_completes platform disk_files disk_files-FilesLaws (one to_vault) [] false passphrase
      staged_disk resumed_disk completed loads_staged (λ i. (resume_returned i, resumed_disk))
