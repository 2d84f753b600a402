-- ===== src/Vault/Secrecy.antt =====
-- What an agent is shown depends on which fields are filled, and not on their values.
use agent_personal_vault.Prelude.{String, ◌≡◌, refl, Bool, Option, [], ◌∷◌}
use agent_personal_vault.Result.{Result, ok, err, ◌>>=◌}
use agent_personal_vault.Python.Json.{Json, Fields}
use agent_personal_vault.Platform.{Platform, to_text}
use agent_personal_vault.Schemas.{Schema}
use agent_personal_vault.Vault.Shape.{get_schema}
use agent_personal_vault.Vault.Context.{
  schema_entry, field_values, is_filled, required_missing, filled_keys, missing_keys, agent_context,
  check_summary,
}

-- Two stores with the same schema entry, whose fields are filled alike.
pub record FilledAlike (p : Platform) (store store' : Fields) : Type 0 where
  pub same_schema : schema_entry store' ≡ schema_entry store
  pub fields : Fields
  pub fields' : Fields
  pub has_fields : field_values store ≡ ok fields
  pub has_fields' : field_values store' ≡ ok fields'
  pub alike : (key : String) → is_filled p fields' key ≡ is_filled p fields key

module _ (p : Platform) (fields fields' : Fields)
    (alike : (key : String) → is_filled p fields' key ≡ is_filled p fields key) where
  required_missing-alike :
      (schema : Schema) → required_missing p fields' schema ≡ required_missing p fields schema
  unfolding required_missing
  required_missing-alike [] = refl
  required_missing-alike ((key, spec) ∷ schema) = rw (alike key, required_missing-alike schema) refl

  filled_keys-alike : (schema : Schema) → filled_keys p fields' schema ≡ filled_keys p fields schema
  unfolding filled_keys
  filled_keys-alike [] = refl
  filled_keys-alike ((key, spec) ∷ schema) = rw (alike key, filled_keys-alike schema) refl

  missing_keys-alike :
      (schema : Schema) → missing_keys p fields' schema ≡ missing_keys p fields schema
  unfolding missing_keys
  missing_keys-alike [] = refl
  missing_keys-alike ((key, spec) ∷ schema) = rw (alike key, missing_keys-alike schema) refl

-- Two blocks that differ in the last step alone.
pub after_schema :
    {A : Type 0} (r : Result Json) (f g : Json → Schema → Result A) (name : Json → String)
    → ((v : Json) (schema : Schema) → f v schema ≡ g v schema)
    → (r >>= λ v. get_schema (name v) >>= f v) ≡ (r >>= λ v. get_schema (name v) >>= g v)
unfolding ◌>>=◌
after_schema (err e) f g name same = refl
after_schema (ok v) f g name same = after (get_schema (name v))
  where
    after : (r : Result Schema) → (r >>= f v) ≡ (r >>= g v)
    after (err e) = refl
    after (ok schema) = same v schema

-- Stores with the same schema entry whose fields are filled alike have the same agent context, error
-- or value, whatever the values are.
pub agent_context_hides_values :
    (p : Platform) (store store' : Fields) (include_path : Bool) (path : Option String)
    → FilledAlike p store store'
    → agent_context p store' include_path path ≡ agent_context p store include_path path
unfolding agent_context ◌>>=◌
agent_context_hides_values p store store' include_path path f = rw (f.same_schema) (
    after_schema (schema_entry store) _ _ (to_text p) λ v schema.
      rw
        (
          f.has_fields,
          f.has_fields',
          required_missing-alike p f.fields f.fields' f.alike schema,
          filled_keys-alike p f.fields f.fields' f.alike schema,
        )
        refl)

-- Stores with the same schema entry whose fields are filled alike have the same check summary, which
-- also shows the path and the mode of the file.
pub check_summary_hides_values :
    (p : Platform) (store store' : Fields) (path mode : String)
    → FilledAlike p store store'
    → check_summary p store' path mode ≡ check_summary p store path mode
unfolding check_summary ◌>>=◌
check_summary_hides_values p store store' path mode f = rw (f.same_schema) (
    after_schema (schema_entry store) _ _ (to_text p) λ v schema.
      rw
        (
          f.has_fields,
          f.has_fields',
          missing_keys-alike p f.fields f.fields' f.alike schema,
          filled_keys-alike p f.fields f.fields' f.alike schema,
        )
        refl)
