-- ===== src/Vault/NextShape.antt =====
-- The store that a write of the vault saves has a valid shape and the next revision.
use agent_personal_vault.Prelude.{ℕ, String, ◌≡◌, refl, sym, subst, false, Option, none, some, ◌==◌}
use agent_personal_vault.Result.{Error, ok, err, >>=-eq_ok, ok_inj, value_error, ◌>>=◌}
use agent_personal_vault.Python.Json.{
  pos, Json, null, bool, int, float, str, arr, obj, Fields, end, get, get_or_null, put, get-put,
}
use agent_personal_vault.Vault.Shape.{
  check_schema, check_fields, check_values, revision_of, validate_store_shape, store_revision,
  fields_of,
}
use agent_personal_vault.Vault.Store.{next_store}
use agent_personal_vault.Crypto.{is_storage, is_encrypted_payload}

-- The tests of `validate_store_shape`, one by one.
pub record IsStore (store : Fields) (n : ℕ) : Type 0 where
  pub schema : check_schema (get_or_null "schema" store) ≡ ok tt
  pub fields : check_fields (get_or_null "fields" store) ≡ ok tt
  pub revision : revision_of store ≡ ok n

pub IsStore-store_revision :
    (store : Fields) (n : ℕ) → IsStore store n → store_revision store ≡ ok n
unfolding store_revision ◌>>=◌
IsStore-store_revision store n is = rw (is.schema, is.fields, is.revision) refl

pub store_revision-IsStore :
    (store : Fields) (n : ℕ) → store_revision store ≡ ok n → IsStore store n
unfolding store_revision
store_revision-IsStore store n e =
    let (_, valid, revision) = >>=-eq_ok (validate_store_shape (obj store)) _ e in
    let (_, schema, rest) = >>=-eq_ok (check_schema (get_or_null "schema" store)) _ valid in
    let (_, fields, _) = >>=-eq_ok (check_fields (get_or_null "fields" store)) _ rest in
    record { schema = schema; fields = fields; revision = revision }

fields_of-check :
    (store : Fields) {fields : Fields}
    → fields_of store ≡ ok fields
    → check_fields (get_or_null "fields" store) ≡ ok tt
    → check_fields (obj fields) ≡ ok tt
unfolding fields_of check_values
fields_of-check store {fields} e = split (get "fields" store) e
  where
    split :
        (o : Option Json)
        → elim o [ none ↦ ok end | some (obj d) ↦ ok d | some _ ↦ err (Error.type_error) ]
          ≡ ok fields
        → check_fields (elim o [ none ↦ null | some v ↦ v ]) ≡ ok tt
        → check_fields (obj fields) ≡ ok tt
    split none e h = subst (λ d. check_fields (obj d) ≡ ok tt) (ok_inj e) refl
    split (some (obj d)) e h = subst (λ d. check_fields (obj d) ≡ ok tt) (ok_inj e) h
    split (some null) e h = absurd (cc)
    split (some (bool _)) e h = absurd (cc)
    split (some (int _)) e h = absurd (cc)
    split (some (float _)) e h = absurd (cc)
    split (some (str _)) e h = absurd (cc)
    split (some (arr _)) e h = absurd (cc)

pub get-next_store :
    (key : String) (store fields : Fields) (now : String) (r : ℕ)
    → ("revision" == key) ≡ false
    → ("updated_at" == key) ≡ false
    → ("fields" == key) ≡ false
    → get key (next_store store fields now r) ≡ get key store
get-next_store key store fields now r a b c =
    rw
      (
        get-put "revision" key (int (pos r))
            (put "updated_at" (str now) (put "fields" (obj fields) store)),
        a,
        get-put "updated_at" key (str now) (put "fields" (obj fields) store),
        b,
        get-put "fields" key (obj fields) store,
        c,
      )
      refl

pub get_fields-next_store :
    (store fields : Fields) (now : String) (r : ℕ)
    → get "fields" (next_store store fields now r) ≡ some (obj fields)
get_fields-next_store store fields now r =
    rw
      (
        get-put "revision" "fields" (int (pos r))
            (put "updated_at" (str now) (put "fields" (obj fields) store)),
        get-put "updated_at" "fields" (str now) (put "fields" (obj fields) store),
        get-put "fields" "fields" (obj fields) store,
      )
      refl

get_revision-put : (d : Fields) (r : ℕ) → revision_of (put "revision" (int (pos r)) d) ≡ ok r
unfolding revision_of
get_revision-put d r =
    subst
      (λ o.
        elim o [
          | none ↦ ok 0
          | some (int (pos n)) ↦ ok n
          | some _ ↦ err (value_error "vault store is invalid")
        ]
        ≡ ok r)
      (sym (get-put "revision" "revision" (int (pos r)) d)) refl

pub next_store-IsStore :
    (store fields : Fields) (now : String) (n r : ℕ)
    → IsStore store n
    → fields_of store ≡ ok fields
    → IsStore (next_store store fields now r) r
next_store-IsStore store fields now n r is e = record {
  schema =
      subst (λ o. check_schema (elim o [ none ↦ null | some v ↦ v ]) ≡ ok tt)
        (sym (get-next_store "schema" store fields now r refl refl refl)) (is.schema);
  fields =
      subst (λ o. check_fields (elim o [ none ↦ null | some v ↦ v ]) ≡ ok tt)
        (sym (get_fields-next_store store fields now r)) (fields_of-check store e (is.fields));
  revision = get_revision-put _ r;
}

-- The store that a caller of a write gets back.
abbrev pub returned_store : Fields → String → ℕ → Fields
returned_store store now r = put "revision" (int (pos r)) (put "updated_at" (str now) store)

get-returned_store :
    (key : String) (store : Fields) (now : String) (r : ℕ)
    → ("revision" == key) ≡ false
    → ("updated_at" == key) ≡ false
    → get key (returned_store store now r) ≡ get key store
get-returned_store key store now r a b =
    rw
      (
        get-put "revision" key (int (pos r)) (put "updated_at" (str now) store),
        a,
        get-put "updated_at" key (str now) store,
        b,
      )
      refl

pub returned_store-IsStore :
    (store : Fields) (now : String) (n r : ℕ)
    → IsStore store n
    → IsStore (returned_store store now r) r
returned_store-IsStore store now n r is = record {
  schema =
      subst (λ o. check_schema (elim o [ none ↦ null | some v ↦ v ]) ≡ ok tt)
        (sym (get-returned_store "schema" store now r refl refl)) (is.schema);
  fields =
      subst (λ o. check_fields (elim o [ none ↦ null | some v ↦ v ]) ≡ ok tt)
        (sym (get-returned_store "fields" store now r refl refl)) (is.fields);
  revision = get_revision-put _ r;
}

-- The name of the payload's envelope is another entry.
pub next_store-plain :
    (store fields : Fields) (now : String) (r : ℕ)
    → is_encrypted_payload (obj store) ≡ ok false
    → is_encrypted_payload (obj (next_store store fields now r)) ≡ ok false
unfolding is_encrypted_payload
next_store-plain store fields now r plain =
    subst (λ o. is_storage o ≡ ok false)
      (sym (get-next_store "storage" store fields now r refl refl refl)) plain
