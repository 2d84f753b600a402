-- ===== src/Vault/Context.antt =====
-- agent_personal_vault/vault.py: what an agent is shown of a store, without a task.
use agent_personal_vault.Prelude.{
  String, Bool, true, false, not, ◌&&◌, Option, none, some, List, [], ◌∷◌, length, ◌==◌,
  if◌then◌else◌,
}
use agent_personal_vault.Result.{Error, Result, ok, err, key_error, ◌>>=◌}
use agent_personal_vault.Python.Text.{◌^^◌}
use agent_personal_vault.Python.Words.{strip}
use agent_personal_vault.Python.Json.{
  pos, Json, bool, int, str, arr, obj, Fields, end, field, get, of_list,
}
use agent_personal_vault.Platform.{Platform, to_text}
use agent_personal_vault.Schemas.{Schema, FieldSpec, derived_labels}
use agent_personal_vault.Vault.Shape.{get_schema}

-- `store["schema"]`
unfoldable pub schema_entry : Fields → Result Json
schema_entry store = elim (get "schema" store) [ none ↦ err (key_error "schema") | some v ↦ ok v ]

-- `store.get("fields", {})`, which is asked for `.get` next
unfoldable pub field_values : Fields → Result Fields
field_values store = elim (get "fields" store) [
  | none ↦ ok end
  | some (obj d) ↦ ok d
  | some _ ↦ err (Error.attribute_error)
]

-- `str(fields.get(key, "")).strip()`
abbrev pub shown_value : Platform → Fields → String → String
shown_value p fields key = strip (elim (get key fields) [ none ↦ "" | some v ↦ to_text p v ])

-- its truth value
unfoldable pub is_filled : Platform → Fields → String → Bool
is_filled p fields key = not (shown_value p fields key == "")

abbrev pub join_part : String → String → String
join_part a b = if a == "" then b else if b == "" then a else a ^^ "\u{3000}" ^^ b

unfoldable pub derived_fields : Platform → Fields → List (String × String)
derived_fields p fields =
    (
      "FULL_NAME",
      join_part (shown_value p fields "FAMILY_NAME") (shown_value p fields "GIVEN_NAME"),
    )
    ∷ (
      "FULL_NAME_KANA",
      join_part (shown_value p fields "FAMILY_NAME_KANA") (shown_value p fields "GIVEN_NAME_KANA"),
    )
    ∷ ("NAME_SEPARATOR", "全角スペース")
    ∷ []

-- `{"key": key, "label": spec.label, "group": spec.group}`
abbrev pub key_entry : String → FieldSpec → Json
key_entry key spec = obj (
    field "key" (str key) (field "label" (str (spec.label)) (field "group" (str (spec.group)) end)))

unfoldable pub required_missing : Platform → Fields → Schema → List Json
required_missing p fields [] = []
required_missing p fields ((key, spec) ∷ schema) =
    let rest = required_missing p fields schema in
    if not (spec.optional) && not (is_filled p fields key) then key_entry key spec ∷ rest else rest

unfoldable pub filled_keys : Platform → Fields → Schema → List Json
filled_keys p fields [] = []
filled_keys p fields ((key, spec) ∷ schema) =
    let rest = filled_keys p fields schema in
    if is_filled p fields key then key_entry key spec ∷ rest else rest

unfoldable pub derived_keys : List (String × String) → List Json
derived_keys [] = []
derived_keys ((key, label) ∷ labels) =
    obj (field "key" (str key) (field "label" (str label) end)) ∷ derived_keys labels

abbrev pub raw_access_rule : String
raw_access_rule =
    "Use get <KEY> only for the minimum required key, and never paste raw values into logs, public artifacts, remote agents, or external services without explicit user approval."

abbrev pub final_action_boundary : List Json
final_action_boundary =
    str "external upload"
    ∷ str "form submission"
    ∷ str "account registration"
    ∷ str "email sending"
    ∷ str "public sharing"
    ∷ str "repository push"
    ∷ []

-- `if include_path and path is not None: context["store_path"] = str(path)`
abbrev pub path_entry : Bool → Option String → Fields
path_entry true (some path) = field "store_path" (str path) end
path_entry _ _ = end

abbrev pub context_of : Platform → Json → Schema → Fields → Fields → Fields
context_of p schema_name schema fields rest = field "app" (str "agent-personal-vault") (
    field "schema" schema_name (
      field "classification" (str "LOCAL_PRIVATE_METADATA") (
        field "raw_values_included" (bool false) (
          field "registered" (int (pos (length (filled_keys p fields schema)))) (
            field "total" (int (pos (length schema))) (
              field "required_missing" (arr (of_list (required_missing p fields schema))) (
                field "filled_keys" (arr (of_list (filled_keys p fields schema))) (
                  field "derived_keys" (arr (of_list (derived_keys derived_labels))) (
                    field "safe_default_command" (str "agent-personal-vault context") (
                      field "raw_access_rule" (str raw_access_rule) (
                        field "final_action_boundary" (arr (of_list final_action_boundary))
                          rest)))))))))))

-- `agent_context` without a task
unfoldable pub agent_context : Platform → Fields → Bool → Option String → Result Fields
agent_context p store include_path path = do
  schema_name ← schema_entry store
  schema ← get_schema (to_text p schema_name)
  fields ← field_values store
  ok (context_of p schema_name schema fields (path_entry include_path path))

-- The keys that `check_summary` lists as missing.
unfoldable pub missing_keys : Platform → Fields → Schema → List Json
missing_keys p fields [] = []
missing_keys p fields ((key, spec) ∷ schema) =
    let rest = missing_keys p fields schema in
    if not (spec.optional) && not (is_filled p fields key) then str key ∷ rest else rest

-- `check_summary`; the mode of the file, or "missing", is an argument
unfoldable pub check_summary : Platform → Fields → String → String → Result Fields
check_summary p store path mode = do
  schema_name ← schema_entry store
  schema ← get_schema (to_text p schema_name)
  fields ← field_values store
  ok (
      field "path" (str path) (
        field "mode" (str mode) (
          field "schema" schema_name (
            field "registered" (int (pos (length (filled_keys p fields schema)))) (
              field "total" (int (pos (length schema)))
                (field "required_missing" (arr (of_list (missing_keys p fields schema))) end))))))

abbrev pub field_entry : String → FieldSpec → Json
field_entry key spec = obj (
    field "key" (str key) (
      field "label" (str (spec.label)) (
        field "group" (str (spec.group)) (
          field "sensitivity" (str (spec.sensitivity)) (
            field "optional" (bool (spec.optional)) (
              field "input_type" (str (spec.input_type)) (
                field "has_options" (bool (elim (spec.options) [ [] ↦ false | _ ∷ _ ↦ true ]))
                  end)))))))

unfoldable pub field_entries : Schema → List Json
field_entries [] = []
field_entries ((key, spec) ∷ schema) = field_entry key spec ∷ field_entries schema

unfoldable pub schema_context : String → Result Fields
schema_context schema_name = do
  schema ← get_schema schema_name
  ok (
      field "app" (str "agent-personal-vault") (
        field "schema" (str schema_name) (
          field "classification" (str "PUBLIC_SCHEMA_METADATA") (
            field "raw_values_included" (bool false) (
              field "fields" (arr (of_list (field_entries schema)))
                (field "derived_fields" (arr (of_list (derived_keys derived_labels))) end))))))
