-- ===== src/Migration/Upgrade.antt =====
-- agent_personal_vault/kdf_migration.py: `upgrade_kdf` and `migration_status`.
use agent_personal_vault.Prelude.{String, Bool, false, Option, none, some, List, if◌then◌else◌}
use agent_personal_vault.Exec.{Exec, pure, lift, reads, ◌>>=◌, ◌>>◌}
use agent_personal_vault.Python.Json.{Json}
use agent_personal_vault.Platform.{Platform}
use agent_personal_vault.Crypto.{argon2id_v2_profile, is_encrypted_payload, encryption_profile}
use agent_personal_vault.Crypto.Equal.{profile_eq}
use agent_personal_vault.Files.{Member, vault, current, Files}
use agent_personal_vault.Files.Load.{read_private_json}
use agent_personal_vault.Guard.{migration_incomplete}
use agent_personal_vault.Migration.{sorted_names, Members, preparing, ready}
use agent_personal_vault.Migration.Journal.{state_name}
use agent_personal_vault.Migration.Staging.{Report, prepare_kdf_migration}
use agent_personal_vault.Migration.Checks.{load_journal, validate_completed_profile}
use agent_personal_vault.Migration.Resume.{resume_kdf_migration}

-- What `migration_status` reports of an incomplete migration; its profiles are constants.
pub record Status : Type 0 where
  pub state : String
  pub members : List Member
  pub applied : List Member

abbrev pub member_list : Members → List Member
member_list (preparing d) = sorted_names d
member_list (ready d) = sorted_names d

module _ {W B : Type 0} (f : Files W B) where
  abbrev pub status_of_journal : Exec W (Option Status)
  status_of_journal = do
    j ← reads (load_journal f)
    pure (
        some (record {
          state = state_name j.members;
          members = member_list j.members;
          applied = j.applied;
        }))

  unfoldable pub migration_status : Exec W (Option Status)
  unfolding load_journal
  migration_status = do
    incomplete ← reads (migration_incomplete f)
    if incomplete then status_of_journal else pure none

  abbrev pub already_current : String → Exec W Report
  already_current passphrase = do
    members ← reads (validate_completed_profile f passphrase argon2id_v2_profile)
    pure (record {
      state = "already_current";
      members = members;
      profile = argon2id_v2_profile.name;
    })

  -- `is_encrypted_payload(payload) and encryption_profile(payload) == ARGON2ID_V2_PROFILE`
  abbrev pub is_current_payload : Json → Exec W Bool
  is_current_payload payload = do
    encrypted ← lift (is_encrypted_payload payload)
    if encrypted
        then (do
          profile ← lift (encryption_profile f.cipher.float_equals payload)
          pure (profile_eq profile argon2id_v2_profile))
        else pure false

module _ {W B : Type 0} (p : Platform) (f : Files W B) where
  abbrev pub prepare_and_resume : Bool → String → Exec W Report
  prepare_and_resume active passphrase = do
    prepare_kdf_migration p f active passphrase
    resume_kdf_migration p f active passphrase

  abbrev pub upgrade_complete : Bool → String → Exec W Report
  upgrade_complete active passphrase = do
    payload ← reads (read_private_json f (current vault))
    is_current ← is_current_payload f payload
    if is_current then already_current f passphrase else prepare_and_resume active passphrase

  unfoldable pub upgrade_kdf : Bool → String → Exec W Report
  unfolding prepare_kdf_migration resume_kdf_migration
  upgrade_kdf active passphrase = do
    incomplete ← reads (migration_incomplete f)
    if incomplete
        then resume_kdf_migration p f active passphrase
        else upgrade_complete active passphrase
