-- ===== src/Vault/Payload.antt =====
-- agent_personal_vault/vault.py: what a payload of the vault file holds, once it is decrypted and
-- normalized in memory.
use agent_personal_vault.Prelude.{
  ℕ, String, Bool, Option, none, some, ◌==◌, ◌||◌, not, if◌then◌else◌,
}
use agent_personal_vault.Result.{Result, ok, err, value_error, ◌>>=◌}
use agent_personal_vault.Python.Json.{pos, Json, int, str, obj, Fields, get, has, put, set_default}
use agent_personal_vault.Schemas.{derived_labels}
use agent_personal_vault.Crypto.{EncryptionProfile, is_encrypted_payload, encryption_profile}
use agent_personal_vault.Vault.Host.{VaultHost}
use agent_personal_vault.Vault.Shape.{
  get_schema, validate_store_shape, store_revision, fields_of, add_missing, drop_derived, lacks_key,
  has_derived,
}

-- `passphrase or default_passphrase()`, followed by the test for a text that is not empty
abbrev pub usable : Option String → Option String → Option String
usable none none = none
usable none (some d) = if d == "" then none else some d
usable (some p) none = if p == "" then none else some p
usable (some p) (some d) = if p == "" then if d == "" then none else some d else some p

abbrev pub or_raise : String → Option String → Result String
or_raise message none = err (value_error message)
or_raise message (some p) = ok p

abbrev pub read_needs_passphrase : String
read_needs_passphrase =
    "Encrypted vault requires AGENT_PERSONAL_VAULT_PASSPHRASE or an explicit passphrase."

abbrev pub write_needs_passphrase : String
write_needs_passphrase =
    "Encrypted vault write requires AGENT_PERSONAL_VAULT_PASSPHRASE or an explicit passphrase."

-- `str(store.get("schema") or schema_name)`, after the check that a schema is a text or null
abbrev pub schema_of : Fields → String → String
schema_of store schema_name = elim (get "schema" store) [
  | some (str s) ↦ (if s == "" then schema_name else s)
  | _ ↦ schema_name
]

-- A store, the profile of its payload, and whether the store differs from the payload.
pub record Loaded : Type 0 where
  pub store : Fields
  pub profile : Option EncryptionProfile
  pub changed : Bool

-- From `schema = get_schema(...)` to the end of `_read_normalized_store`.
unfoldable pub normalize_store : String → Fields → Option EncryptionProfile → Result Loaded
normalize_store schema_name store profile = do
  schema ← get_schema (schema_of store schema_name)
  fields ← fields_of store
  let filled = set_default "revision" (int (pos 0)) (put "fields" (obj fields) store)
  let complete = drop_derived derived_labels (add_missing schema fields)
  let changed =
      not (has "revision" store)
      || lacks_key schema fields
      || has_derived derived_labels (add_missing schema fields)
  ok (record { store = put "fields" (obj complete) filled; profile = profile; changed = changed })

module _ {W : Type 0} (h : VaultHost W) where
  -- The store of a payload and the profile of an encrypted one; both callers hold this code.
  unfoldable pub open_encrypted :
      String → Option String → Json → Result (Fields × Option EncryptionProfile)
  open_encrypted message passphrase payload = do
    profile ← encryption_profile (h.float_equals) payload
    pass ← or_raise message (usable passphrase (h.default_passphrase))
    plain ← h.decrypt payload pass
    store ← validate_store_shape plain
    ok (store, some profile)

  unfoldable pub open_plain : Json → Result (Fields × Option EncryptionProfile)
  open_plain payload = do store ← validate_store_shape payload; ok (store, none)

  unfoldable pub open_payload :
      String → Option String → Json → Result (Fields × Option EncryptionProfile)
  open_payload message passphrase payload = do
    encrypted ← is_encrypted_payload payload
    if encrypted then open_encrypted message passphrase payload else open_plain payload

  -- `_read_normalized_store`
  unfoldable pub read_normalized_store : String → Option String → W → Result Loaded
  read_normalized_store schema_name passphrase w = do
    payload ← h.read_vault w
    (store, profile) ← open_payload read_needs_passphrase passphrase payload
    normalize_store schema_name store profile

  -- The profile and the revision of the file that `write_store` finds; no file has revision 0.
  unfoldable pub find_file : Option String → W → Result (Option EncryptionProfile × ℕ)
  find_file passphrase w = do
    payload ← h.read_vault w
    (store, profile) ← open_payload write_needs_passphrase passphrase payload
    revision ← store_revision store
    ok (profile, revision)

  unfoldable pub find_existing : Option String → W → Result (Option EncryptionProfile × ℕ)
  find_existing passphrase w = do
    exists ← h.vault_exists w
    if exists then find_file passphrase w else ok (none, 0)
