-- ===== src/Sidecar/Profile.antt =====
-- The profile of the vault as agent_personal_vault/sidecar_store.py finds it before it writes.
use agent_personal_vault.Prelude.{Option, none, some, if◌then◌else◌}
use agent_personal_vault.Result.{Result, ok, ◌>>=◌}
use agent_personal_vault.Python.Json.{Json}
use agent_personal_vault.Crypto.{
  EncryptionProfile, latest_encryption_profile, is_encrypted_payload, encryption_profile,
}
use agent_personal_vault.Files.{vault, current, Files}
use agent_personal_vault.Files.Load.{read_private_json}

module _ {W B : Type 0} (f : Files W B) where
  abbrev pub profile_of_payload : Json → Result (Option EncryptionProfile)
  profile_of_payload vault_payload = do
    encrypted ← is_encrypted_payload vault_payload
    if encrypted
        then (encryption_profile f.cipher.float_equals vault_payload >>= λ p. ok (some p))
        else ok none

  -- The profile of an encrypted vault, and none where it is plain or missing.
  unfoldable pub vault_profile : W → Result (Option EncryptionProfile)
  vault_profile w = do
    exists ← f.private_file_exists (current vault) w
    if exists then read_private_json f (current vault) w >>= profile_of_payload else ok none

  abbrev pub or_latest : Option EncryptionProfile → EncryptionProfile
  or_latest none = latest_encryption_profile
  or_latest (some profile) = profile

  -- `selected_profile`, for a sidecar to encrypt
  unfoldable pub choose_profile : Option EncryptionProfile → W → Result EncryptionProfile
  unfolding vault_profile
  choose_profile (some profile) w = ok profile
  choose_profile none w = do found ← vault_profile w; ok (or_latest found)
