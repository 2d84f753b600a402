-- ===== src/Migration/Targets.antt =====
-- agent_personal_vault/kdf_migration.py: the originals, the targets and the check that the targets open.
use agent_personal_vault.Prelude.{
  String, Bool, true, false, ◌&&◌, Option, none, some, List, [], ◌∷◌, if◌then◌else◌,
}
use agent_personal_vault.Result.{Result, ok, value_error, require, ◌>>=◌, ◌>>◌}
use agent_personal_vault.Python.Json.{Json, arr, obj, Fields, get}
use agent_personal_vault.Limits.{max_private_json_bytes}
use agent_personal_vault.Crypto.Store.{decrypt_store_payload, decrypt_sidecar_payload}
use agent_personal_vault.Vault.Shape.{validate_store_shape}
use agent_personal_vault.Files.{vault, consent, audit, FileName, current, Files}
use agent_personal_vault.Files.Load.{parse}
use agent_personal_vault.Migration.{Present}

-- The test on a consent state that was decrypted.
abbrev pub is_list : Option Json → Bool
is_list (some (arr _)) = true
is_list _ = false

abbrev pub is_consent_state : Json → Bool
is_consent_state (obj state) = is_list (get "grants" state) && is_list (get "requests" state)
is_consent_state _ = false

abbrev pub is_dict : Json → Bool
is_dict (obj _) = true
is_dict _ = false

module _ {W B : Type 0} (f : Files W B) where
  abbrev pub read_file : FileName → W → Result B
  read_file n w = f.read_private_bytes n max_private_json_bytes w

  abbrev pub read_if_there : FileName → W → Result (Option B)
  read_if_there n w = do
    exists ← f.private_file_exists n w
    if exists then (read_file n w >>= λ b. ok (some b)) else ok none

  unfoldable pub read_present_originals : W → Result (Present B)
  read_present_originals w = do
    for_vault ← read_file (current vault) w
    for_consent ← read_if_there (current consent) w
    for_audit ← read_if_there (current audit) w
    ok (record { of_vault = for_vault; of_consent = for_consent; of_audit = for_audit })

  -- `expected_store is not None and store != expected_store`
  abbrev pub check_expected : Option Fields → Fields → Result (Unit {0})
  check_expected none store = ok tt
  check_expected (some expected) store =
      require (f.equal_dicts store expected) (value_error "migrated vault round-trip mismatch")

  -- A vault payload, opened.
  unfoldable pub open_vault : B → String → Result Fields
  open_vault raw passphrase = do
    vault_payload ← parse f raw
    opened ← decrypt_store_payload f.cipher vault_payload passphrase
    validate_store_shape opened

  unfoldable pub open_sidecar_target : B → String → String → Result B
  open_sidecar_target raw passphrase kind = do
    envelope ← parse f raw
    decrypt_sidecar_payload f.cipher envelope passphrase kind

  abbrev pub verify_consent : String → Option B → Result (Unit {0})
  verify_consent passphrase none = ok tt
  verify_consent passphrase (some raw) = do
    plaintext ← open_sidecar_target raw passphrase "consent"
    state ← parse f plaintext
    require (is_consent_state state) (value_error "migrated consent state is invalid")

  unfoldable pub verify_lines : List B → Result (Unit {0})
  verify_lines [] = ok tt
  verify_lines (line ∷ lines) = do
    if f.is_blank line
        then ok tt
        else (parse f line >>= λ event.
            require (is_dict event) (value_error "migrated audit state is invalid"))
    verify_lines lines

  abbrev pub verify_audit : String → Option B → Result (Unit {0})
  verify_audit passphrase none = ok tt
  verify_audit passphrase (some raw) = do
    plaintext ← open_sidecar_target raw passphrase "audit"
    verify_lines (f.splitlines plaintext)

  unfoldable pub verify_target_round_trips : Present B → String → Option Fields → Result (Unit {0})
  unfolding open_vault open_sidecar_target verify_lines
  verify_target_round_trips targets passphrase expected_store = do
    store ← open_vault targets.of_vault passphrase
    check_expected expected_store store
    verify_consent passphrase targets.of_consent
    verify_audit passphrase targets.of_audit
