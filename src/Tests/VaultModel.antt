-- ===== src/Tests/VaultModel.antt =====
-- The definitions that a test of the vault computes with: it names `vault_model` on its `unfolding`
-- line.
use agent_personal_vault.Result.{◌>>=◌}
use agent_personal_vault.Exec.{continue}
use agent_personal_vault.Python.Text.{utf8_size}
use agent_personal_vault.Python.Words.{strip}
use agent_personal_vault.Python.Json.{get, put, remove}
use agent_personal_vault.Python.Sorted.{insert, sorted}
use agent_personal_vault.Limits.{require_text_limit}
use agent_personal_vault.Schemas.{find_schema}
use agent_personal_vault.Crypto.{is_encrypted_payload, encryption_profile}
use agent_personal_vault.Crypto.Equal.{profile_eq}
use agent_personal_vault.Vault.Shape.{
  check_values, revision_of, validate_store_shape, store_revision, fields_of, add_missing,
  drop_derived, lacks_key, has_derived,
}
use agent_personal_vault.Vault.Payload.{
  normalize_store, open_encrypted, open_plain, open_payload, read_normalized_store, find_file,
  find_existing,
}
use agent_personal_vault.Vault.Store.{seal, write_store, blank_store, read_store, load_store}
use agent_personal_vault.Vault.Context.{
  schema_entry, field_values, is_filled, derived_fields, required_missing, filled_keys,
  derived_keys, missing_keys, agent_context, check_summary,
}

unfoldable pub vault_model : Unit {0}
unfolding insert sorted ◌>>=◌ continue utf8_size strip get put remove require_text_limit find_schema
    is_encrypted_payload encryption_profile profile_eq check_values revision_of validate_store_shape
    store_revision fields_of add_missing drop_derived lacks_key has_derived normalize_store
    open_encrypted open_plain open_payload read_normalized_store find_file find_existing seal
    write_store blank_store read_store load_store schema_entry field_values is_filled derived_fields
    required_missing filled_keys derived_keys missing_keys agent_context check_summary
vault_model = tt
