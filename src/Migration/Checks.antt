-- ===== src/Migration/Checks.antt =====
-- agent_personal_vault/kdf_migration.py: what the commands read and check before they write.
use agent_personal_vault.Prelude.{
  String, Bool, true, false, ◌&&◌, ◌||◌, ◌==◌, nat_eq, Option, none, some, List, if◌then◌else◌,
}
use agent_personal_vault.Result.{Result, ok, value_error, require, ◌>>=◌, ◌>>◌}
use agent_personal_vault.Crypto.{EncryptionProfile, payload_profile}
use agent_personal_vault.Crypto.Equal.{profile_eq}
use agent_personal_vault.Files.{
  Member, vault, consent, audit, current, backup, next, journal, Files,
}
use agent_personal_vault.Files.Load.{parse, read_private_json}
use agent_personal_vault.Guard.{migration_incomplete}
use agent_personal_vault.Migration.{
  Present, sorted_names, Stamp, Staged, MigrationJournal, member_name,
}
use agent_personal_vault.Migration.Journal.{validate_journal}
use agent_personal_vault.Migration.Targets.{
  read_file, read_present_originals, open_sidecar_target, verify_target_round_trips,
}

abbrev pub is_sidecar : Member → Bool
is_sidecar vault = false
is_sidecar _ = true

module _ {W B : Type 0} (f : Files W B) where
  unfoldable pub load_journal : W → Result MigrationJournal
  load_journal w = do
    incomplete ← migration_incomplete f w
    require incomplete (value_error "no incomplete KDF migration exists")
    payload ← read_private_json f journal w
    validate_journal payload

  abbrev pub matches_stamp : B → Stamp → Bool
  matches_stamp b s = nat_eq (f.cipher.len b) s.size && f.sha256 b == s.sha256

  abbrev pub backup_original : Member → B → String → Result B
  backup_original vault raw passphrase = ok raw
  backup_original m raw passphrase = open_sidecar_target f raw passphrase (member_name m)

  unfoldable pub read_validated_backup : Member → Staged → String → W → Result B
  read_validated_backup m s passphrase w = do
    raw ← read_file f (backup m) w
    require (matches_stamp raw s.backup) (value_error "migration backup is missing or invalid")
    original ← backup_original m raw passphrase
    require (matches_stamp original s.original)
        (value_error "migration backup is missing or invalid")
    ok original

  -- One round of the loop of `_validate_completed_profile`.
  abbrev pub check_profile : EncryptionProfile → Member → B → Result (Unit {0})
  check_profile expected m payload = do
    envelope ← parse f payload
    profile ← payload_profile f.cipher.float_equals (is_sidecar m) envelope
    require (profile_eq profile expected)
        (value_error "vault and metadata encryption profiles do not match")

  abbrev pub check_profile_if : EncryptionProfile → Member → Option B → Result (Unit {0})
  check_profile_if expected m none = ok tt
  check_profile_if expected m (some payload) = check_profile expected m payload

  unfoldable pub validate_completed_profile : String → EncryptionProfile → W → Result (List Member)
  unfolding read_present_originals verify_target_round_trips
  validate_completed_profile passphrase expected w = do
    payloads ← read_present_originals f w
    check_profile expected vault payloads.of_vault
    check_profile_if expected consent payloads.of_consent
    check_profile_if expected audit payloads.of_audit
    verify_target_round_trips f payloads passphrase none
    ok (sorted_names payloads)

  -- The digest of a member's file, beside what the journal has of the member.
  abbrev pub hash_current : Member → Staged → W → Result (Staged × String)
  hash_current m s w = do payload ← read_file f (current m) w; ok (s, f.sha256 payload)

  abbrev pub is_target : Staged × String → Bool
  is_target h = h.1 == h.0.target.sha256

  abbrev pub is_target_if : Option (Staged × String) → Bool
  is_target_if none = true
  is_target_if (some h) = is_target h

  -- `all_target`
  abbrev pub all_target : Present (Staged × String) → Bool
  all_target d = is_target d.of_vault && (is_target_if d.of_consent && is_target_if d.of_audit)

  unfoldable pub check_backup : Bool → String → Member → Staged → W → Result (Unit {0})
  unfolding read_validated_backup
  check_backup targets_stand passphrase m s w = do
    there ← f.private_file_exists (backup m) w
    if there
        then (read_validated_backup m s passphrase w >>= λ _. ok tt)
        else require targets_stand
            (value_error "migration backup is missing or invalid; rollback is unavailable")

  -- The staging file, if it is there.
  unfoldable pub read_candidate : Member → Staged × String → W → Result (Option B)
  read_candidate m h w = do
    there ← f.private_file_exists (next m) w
    if there
        then (read_file f (next m) w >>= λ candidate.
            require (f.sha256 candidate == h.0.target.sha256)
              (value_error "migration staging file is invalid")
            >> ok (some candidate))
        else require (is_target h) (value_error "migration staging file is missing") >> ok none

  -- One round of the loop of `resume_kdf_migration` that checks a member.
  unfoldable pub check_member :
      Bool → String → Member → Staged × String → W → Result (Staged × Option B)
  unfolding check_backup read_candidate
  check_member targets_stand passphrase m h w = do
    check_backup targets_stand passphrase m h.0 w
    candidate ← read_candidate m h w
    ok (h.0, candidate)

  abbrev pub or_else : Option B → B → B
  or_else none b = b
  or_else (some a) b = a

  -- An entry of `complete_targets`; the file is read in either case.
  abbrev pub complete_target : Member → Staged × Option B → W → Result B
  complete_target m t w = do payload ← read_file f (current m) w; ok (or_else t.1 payload)

  -- One round of the loop of `rollback_kdf_migration` that checks a member.
  unfoldable pub validated_original : String → Member → Staged → W → Result (Staged × B)
  unfolding read_validated_backup
  validated_original passphrase m s w = do
    there ← f.private_file_exists (backup m) w
    require there (value_error "migration backup is missing or invalid")
    original ← read_validated_backup m s passphrase w
    payload ← read_file f (current m) w
    require (f.sha256 payload == s.original.sha256 || f.sha256 payload == s.target.sha256)
        (value_error "migration target changed; rollback cannot continue")
    ok (s, original)

  abbrev pub unchanged : B → Stamp → Bool
  unchanged payload first = f.sha256 payload == first.sha256

  abbrev pub unchanged_entry : Option B → Option Stamp → Bool
  unchanged_entry (some payload) (some first) = unchanged payload first
  unchanged_entry _ _ = true

  -- Each file has the digest of the first journal.
  abbrev pub all_unchanged : Present B → Present Stamp → Bool
  all_unchanged found first =
      unchanged found.of_vault first.of_vault
      && (unchanged_entry found.of_consent first.of_consent
          && unchanged_entry found.of_audit first.of_audit)
