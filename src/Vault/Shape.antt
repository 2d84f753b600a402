-- ===== src/Vault/Shape.antt =====
-- The shape of a store in agent_personal_vault/vault.py, and its revision.
use agent_personal_vault.Prelude.{
  ℕ, String, Bool, true, false, none, some, List, [], ◌∷◌, if◌then◌else◌,
}
use agent_personal_vault.Result.{Error, Result, ok, err, value_error, ◌>>◌}
use agent_personal_vault.Python.Text.{◌^^◌}
use agent_personal_vault.Python.Json.{
  pos, Json, null, int, str, obj, Fields, end, field, get, get_or_null, has, remove, set_default,
}
use agent_personal_vault.Limits.{require_text_limit, max_field_value_bytes}
use agent_personal_vault.Schemas.{Schema, find_schema}

abbrev pub store_invalid : Error
store_invalid = value_error "vault store is invalid"

abbrev pub get_schema : String → Result Schema
get_schema name = elim (find_schema name) [
  | some schema ↦ ok schema
  | none ↦ err (value_error ("Unknown schema: " ^^ name ^^ ". Allowed: job_hunting_profile"))
]

-- `schema is not None and not isinstance(schema, str)`
abbrev pub check_schema : Json → Result (Unit {0})
check_schema null = ok tt
check_schema (str _) = ok tt
check_schema _ = err store_invalid

-- The loop over `fields.values()`.
unfoldable pub check_values : Fields → Result (Unit {0})
check_values end = ok tt
check_values (field key (str value) d) =
    require_text_limit value max_field_value_bytes "vault field" >> check_values d
check_values (field key _ d) = err store_invalid

abbrev pub check_fields : Json → Result (Unit {0})
check_fields null = ok tt
check_fields (obj d) = check_values d
check_fields _ = err store_invalid

-- `store.get("revision", 0)`, which must be an int that is not negative
unfoldable pub revision_of : Fields → Result ℕ
revision_of store = elim (get "revision" store) [
  | none ↦ ok 0
  | some (int (pos n)) ↦ ok n
  | some _ ↦ err store_invalid
]

unfoldable pub validate_store_shape : Json → Result Fields
unfolding check_values revision_of
validate_store_shape (obj store) = do
  check_schema (get_or_null "schema" store)
  check_fields (get_or_null "fields" store)
  revision_of store
  ok store
validate_store_shape _ = err store_invalid

unfoldable pub store_revision : Fields → Result ℕ
unfolding validate_store_shape
store_revision store = validate_store_shape (obj store) >> revision_of store

-- `dict(store.get("fields", {}))`; only an object has got through the check, or a null that raises
unfoldable pub fields_of : Fields → Result Fields
fields_of store = elim (get "fields" store) [
  | none ↦ ok end
  | some (obj d) ↦ ok d
  | some _ ↦ err (Error.type_error)
]

-- `for key in schema: if key not in fields: fields[key] = ""`
unfoldable pub add_missing : Schema → Fields → Fields
add_missing [] d = d
add_missing ((key, _) ∷ schema) d = add_missing schema (set_default key (str "") d)

-- `for key in DERIVED_FIELDS: fields.pop(key, None)`
unfoldable pub drop_derived : List (String × String) → Fields → Fields
drop_derived [] d = d
drop_derived ((key, _) ∷ labels) d = drop_derived labels (remove key d)

-- Whether the normalization has changed the fields.
unfoldable pub lacks_key : Schema → Fields → Bool
lacks_key [] d = false
lacks_key ((key, _) ∷ schema) d = let rest = lacks_key schema d in if has key d then rest else true

unfoldable pub has_derived : List (String × String) → Fields → Bool
has_derived [] d = false
has_derived ((key, _) ∷ labels) d =
    let rest = has_derived labels d in if has key d then true else rest
