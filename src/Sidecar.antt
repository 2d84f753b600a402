-- ===== src/Sidecar.antt =====
-- agent_personal_vault/sidecar_store.py: how the vault protects its sidecars, and which passphrase
-- opens them.
pub mod Profile
pub mod Read
pub mod Write
pub mod Steps
pub mod Protects
pub mod Saved
pub mod RoundTrip
pub mod Bounds
use agent_personal_vault.Prelude.{
  String, Bool, true, false, Option, none, some, ◌==◌, if◌then◌else◌,
}
use agent_personal_vault.Result.{
  Error, Result, ok, err, value_error, is_value_error, require, ◌>>=◌, ◌>>◌,
}
use agent_personal_vault.Python.Json.{Json}
use agent_personal_vault.Crypto.{
  EncryptionProfile, is_encrypted_payload, is_encrypted_sidecar_payload, encryption_profile,
}
use agent_personal_vault.Crypto.Store.{decrypt_store_payload}
use agent_personal_vault.Files.{vault, FileName, current, Files}
use agent_personal_vault.Files.Load.{read_private_json}

-- `explicit or default`: an empty passphrase counts as none
abbrev pub or_environment : Option String → Option String → Option String
or_environment (some explicit) default = if explicit == "" then default else some explicit
or_environment none default = default

abbrev pub needs_passphrase : Error
needs_passphrase =
    value_error
      "Encrypted sidecars require AGENT_PERSONAL_VAULT_PASSPHRASE or an explicit passphrase."

-- `validated or passphrase`
abbrev pub or_given : Option String → String → String
or_given none passphrase = passphrase
or_given (some validated) passphrase = if validated == "" then passphrase else validated

-- `_passphrase`
unfoldable pub required_passphrase : Option String → Option String → Result String
required_passphrase explicit default = elim (or_environment explicit default) [
  | none ↦ err needs_passphrase
  | some value ↦ if value == "" then err needs_passphrase else ok value
]

-- What `_sidecar_protection` finds: whether the vault is encrypted, the passphrase to use, and the
-- profile of the vault.
pub record Protection : Type 0 where
  pub protect : Bool
  pub passphrase : Option String
  pub profile : Option EncryptionProfile

-- The read of `sidecar_is_encrypted`, where `except (UnicodeDecodeError, json.JSONDecodeError,
-- ValueError)` returns False, and the test that follows it.
abbrev pub tested : Result Json → (Json → Result Bool) → Result Bool
tested (ok payload) test = test payload
tested (err e) test = if is_value_error e then ok false else err e

module _ {W B : Type 0} (f : Files W B) where
  unfoldable pub vault_uses_encryption : W → Result Bool
  vault_uses_encryption w = do
    exists ← f.private_file_exists (current vault) w
    if exists then read_private_json f (current vault) w >>= is_encrypted_payload else ok false

  unfoldable pub validated_vault_passphrase : Json → Option String → Result String
  validated_vault_passphrase vault_payload explicit = do
    passphrase ← required_passphrase explicit f.default_passphrase
    encrypted ← is_encrypted_payload vault_payload
    require encrypted (value_error "vault encryption state changed; reload and retry")
    decrypt_store_payload f.cipher vault_payload passphrase
    ok passphrase

  abbrev pub unprotected : Option String → Protection
  unprotected passphrase = record { protect = false; passphrase = passphrase; profile = none }

  abbrev pub protection_of : Option String → Json → Bool → Result Protection
  protection_of passphrase vault_payload false = ok (unprotected passphrase)
  protection_of passphrase vault_payload true = do
    validated ← validated_vault_passphrase vault_payload passphrase
    profile ← encryption_profile f.cipher.float_equals vault_payload
    ok (record { protect = true; passphrase = some validated; profile = some profile })

  abbrev pub read_protection : Option String → W → Result Protection
  read_protection passphrase w = do
    vault_payload ← read_private_json f (current vault) w
    encrypted ← is_encrypted_payload vault_payload
    protection_of passphrase vault_payload encrypted

  unfoldable pub sidecar_protection : Option String → W → Result Protection
  sidecar_protection passphrase w = do
    exists ← f.private_file_exists (current vault) w
    if exists then read_protection passphrase w else ok (unprotected passphrase)

  unfoldable pub validate_sidecar_passphrase_binding : Option String → W → Result (Option String)
  validate_sidecar_passphrase_binding passphrase w = do
    protection ← sidecar_protection passphrase w
    ok (protection.passphrase)

  unfoldable pub sidecar_is_encrypted : FileName → String → W → Result Bool
  sidecar_is_encrypted path kind w = do
    exists ← f.private_file_exists path w
    if exists
        then tested (read_private_json f path w) (is_encrypted_sidecar_payload (some kind))
        else ok false
