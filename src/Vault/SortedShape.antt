-- ===== src/Vault/SortedShape.antt =====
-- A store keeps its shape and its revision when its keys are put in order.
use agent_personal_vault.Prelude.{
  ℕ, String, ◌≡◌, refl, sym, subst, inl, inr, Bool-cases, Option, none, some,
}
use agent_personal_vault.Result.{Result, ok, err, >>=-eq_ok, ◌>>=◌}
use agent_personal_vault.Python.Json.{
  pos, negsuc, Json, null, bool, int, float, str, arr, obj, Fields, end, field, get,
}
use agent_personal_vault.Python.Sorted.{
  insert, precedes, sorted, sorted_fields, map_sorted, get-sorted_fields,
}
use agent_personal_vault.Limits.{require_text_limit, max_field_value_bytes}
use agent_personal_vault.Vault.Shape.{
  store_invalid, check_schema, check_values, check_fields, revision_of,
}
use agent_personal_vault.Vault.NextShape.{IsStore}

check_values-insert :
    (k s : String) (d : Fields) {t : String}
    → require_text_limit s max_field_value_bytes "vault field" ≡ ok t
    → check_values d ≡ ok tt
    → check_values (insert k (str s) d) ≡ ok tt
unfolding check_values insert ◌>>=◌
check_values-insert k s end fits rest = rw fits refl
check_values-insert k s (field j (str u) d) {t} fits rest =
    let (v, first, others) =
      >>=-eq_ok (require_text_limit u max_field_value_bytes "vault field") _ rest in
    elim (Bool-cases (precedes j k)) [
      | inl before ↦ rw (before, first) (check_values-insert k s d fits others)
      | inr behind ↦ rw (behind, fits, first) others
    ]
check_values-insert k s (field j null d) fits rest = absurd (cc)
check_values-insert k s (field j (bool _) d) fits rest = absurd (cc)
check_values-insert k s (field j (int _) d) fits rest = absurd (cc)
check_values-insert k s (field j (float _) d) fits rest = absurd (cc)
check_values-insert k s (field j (arr _) d) fits rest = absurd (cc)
check_values-insert k s (field j (obj _) d) fits rest = absurd (cc)

check_values-sorted : (d : Fields) → check_values d ≡ ok tt → check_values (sorted_fields d) ≡ ok tt
unfolding check_values sorted
check_values-sorted end h = refl
check_values-sorted (field k (str s) d) h =
    let (t, fits, rest) =
      >>=-eq_ok (require_text_limit s max_field_value_bytes "vault field") _ h in
    check_values-insert k s (sorted_fields d) fits (check_values-sorted d rest)
check_values-sorted (field k null d) h = absurd (cc)
check_values-sorted (field k (bool _) d) h = absurd (cc)
check_values-sorted (field k (int _) d) h = absurd (cc)
check_values-sorted (field k (float _) d) h = absurd (cc)
check_values-sorted (field k (arr _) d) h = absurd (cc)
check_values-sorted (field k (obj _) d) h = absurd (cc)

schema_entry-sorted :
    (o : Option Json)
    → check_schema (elim o [ none ↦ null | some v ↦ v ]) ≡ ok tt
    → check_schema (elim (map_sorted o) [ none ↦ null | some v ↦ v ]) ≡ ok tt
unfolding sorted
schema_entry-sorted none h = refl
schema_entry-sorted (some null) h = refl
schema_entry-sorted (some (str s)) h = refl
schema_entry-sorted (some (bool _)) h = absurd (cc)
schema_entry-sorted (some (int _)) h = absurd (cc)
schema_entry-sorted (some (float _)) h = absurd (cc)
schema_entry-sorted (some (arr _)) h = absurd (cc)
schema_entry-sorted (some (obj _)) h = absurd (cc)

fields_entry-sorted :
    (o : Option Json)
    → check_fields (elim o [ none ↦ null | some v ↦ v ]) ≡ ok tt
    → check_fields (elim (map_sorted o) [ none ↦ null | some v ↦ v ]) ≡ ok tt
unfolding sorted
fields_entry-sorted none h = refl
fields_entry-sorted (some null) h = refl
fields_entry-sorted (some (obj d)) h = check_values-sorted d h
fields_entry-sorted (some (bool _)) h = absurd (cc)
fields_entry-sorted (some (int _)) h = absurd (cc)
fields_entry-sorted (some (float _)) h = absurd (cc)
fields_entry-sorted (some (arr _)) h = absurd (cc)
fields_entry-sorted (some (str _)) h = absurd (cc)

-- The revision that an entry gives.
abbrev revision_entry : Option Json → Result ℕ
revision_entry o = elim o [ none ↦ ok 0 | some (int (pos n)) ↦ ok n | some _ ↦ err store_invalid ]

revision_entry-sorted :
    (o : Option Json) (n : ℕ) → revision_entry o ≡ ok n → revision_entry (map_sorted o) ≡ ok n
unfolding sorted
revision_entry-sorted none n h = h
revision_entry-sorted (some (int (pos m))) n h = h
revision_entry-sorted (some (int (negsuc m))) n h = absurd (cc)
revision_entry-sorted (some null) n h = absurd (cc)
revision_entry-sorted (some (bool _)) n h = absurd (cc)
revision_entry-sorted (some (float _)) n h = absurd (cc)
revision_entry-sorted (some (str _)) n h = absurd (cc)
revision_entry-sorted (some (arr _)) n h = absurd (cc)
revision_entry-sorted (some (obj _)) n h = absurd (cc)

pub sorted_fields-IsStore :
    (store : Fields) (n : ℕ) → IsStore store n → IsStore (sorted_fields store) n
unfolding revision_of
sorted_fields-IsStore store n is = record {
  schema =
      subst (λ o. check_schema (elim o [ none ↦ null | some v ↦ v ]) ≡ ok tt)
        (sym (get-sorted_fields "schema" store))
        (schema_entry-sorted (get "schema" store) (is.schema));
  fields =
      subst (λ o. check_fields (elim o [ none ↦ null | some v ↦ v ]) ≡ ok tt)
        (sym (get-sorted_fields "fields" store))
        (fields_entry-sorted (get "fields" store) (is.fields));
  revision =
      subst (λ o. revision_entry o ≡ ok n) (sym (get-sorted_fields "revision" store))
        (revision_entry-sorted (get "revision" store) n (is.revision));
}
