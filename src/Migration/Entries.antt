-- ===== src/Migration/Entries.antt =====
-- agent_personal_vault/kdf_migration.py: the bytes of the members while they are staged, and the check of
-- the source.
use agent_personal_vault.Result.{Result, ok, value_error, require, ◌>>=◌, ◌>>◌}
use agent_personal_vault.Python.Json.{Json}
use agent_personal_vault.Crypto.{legacy_v1_profile, is_encrypted_payload, encryption_profile}
use agent_personal_vault.Crypto.Equal.{profile_eq}
use agent_personal_vault.Files.{Files}
use agent_personal_vault.Migration.{Present, zip_present, map_present, Stamp, Staged, stamp}

pub record StagedEntry (B : Type 0) : Type 0 where
  pub original : B
  pub staged_backup : B
  pub target : B

abbrev pub entry_of : {B : Type 0} → (B × B) × B → StagedEntry B
entry_of t = record { original = t.0.0; staged_backup = t.0.1; target = t.1 }

-- The dicts of originals, backups and targets, name by name.
unfoldable pub entries_of :
    {B : Type 0} → Present B → Present B → Present B → Result (Present (StagedEntry B))
entries_of originals backups targets = do
  pairs ← zip_present originals backups
  triples ← zip_present pairs targets
  ok (map_present entry_of triples)

module _ {W B : Type 0} (f : Files W B) where
  unfoldable pub check_source : Json → Result (Unit {0})
  check_source vault_payload = do
    encrypted ← is_encrypted_payload vault_payload
    require encrypted (value_error "KDF migration requires an encrypted vault")
    profile ← encryption_profile f.cipher.float_equals vault_payload
    require (profile_eq profile legacy_v1_profile)
        (value_error "vault KDF is already current or unsupported")

  abbrev pub staged_of : StagedEntry B × Stamp → Staged
  staged_of t = record {
    original = t.1;
    target = stamp f (t.0.target);
    backup = stamp f (t.0.staged_backup);
  }

  -- The members of the ready journal.
  unfoldable pub ready_of : Present (StagedEntry B) → Present Stamp → Result (Present Staged)
  ready_of entries first = do pairs ← zip_present entries first; ok (map_present staged_of pairs)
