-- ===== src/Consent/State.antt =====
-- The state in the consent file of agent_personal_vault/consent.py: what a load accepts, and the
-- form in which a state is stored.
use agent_personal_vault.Prelude.{
  Bool, ℕ, ◌+◌, String, true, false, none, some, List, [], ◌∷◌, ltb, length, if◌then◌else◌,
}
use agent_personal_vault.Result.{Error, Result, ok, err, consent_error, raise_if, ◌>>=◌, ◌>>◌}
use agent_personal_vault.Python.Text.{has_prefix}
use agent_personal_vault.Python.Json.{
  pos, Json, int, str, arr, obj, Fields, end, field, to_list, of_list, get, get_or_null, put,
  remove, set_default,
}
use agent_personal_vault.Limits.{max_consent_records}
use agent_personal_vault.Platform.{Platform, text_field}
use agent_personal_vault.Host.{Host}
use agent_personal_vault.Audit.{redact_value}
use agent_personal_vault.Consent.Record.{
  matching, is_legacy_consent_id, validate_request_id, validate_token_digest,
  validate_purpose_binding, token_digest, validate_stored_purpose,
}

abbrev pub state_invalid : Error
state_invalid = consent_error "consent state is invalid"

-- `{"version": 2, "grants": [], "requests": []}`
abbrev pub empty_state : Fields
empty_state =
    field "version" (int (pos 2))
      (field "grants" (arr (of_list [])) (field "requests" (arr (of_list [])) end))

-- `isinstance(value, list)`, or the state is invalid
abbrev pub require_list : Json → Result (List Json)
require_list (arr js) = ok (to_list js)
require_list _ = err state_invalid

-- The loop that checks each record that is a dict.
unfoldable pub check_records : (Fields → Result (Unit {0})) → List Json → Result (Unit {0})
check_records check [] = ok tt
check_records check (obj r ∷ js) = check r >> check_records check js
check_records check (_ ∷ js) = check_records check js

-- `if isinstance(value, list): for record in value: …`
abbrev pub check_list : (Fields → Result (Unit {0})) → Json → Result (Unit {0})
check_list check (arr js) = check_records check (to_list js)
check_list check _ = ok tt

-- `if key in record: validate(record.get(key))`
abbrev pub check_present : String → (Json → Result String) → Fields → Result (Unit {0})
check_present key validate r = elim (get key r) [ none ↦ ok tt | some v ↦ validate v >> ok tt ]

module _ (p : Platform) where
  unfoldable pub check_request : Fields → Result (Unit {0})
  check_request r = do
    validate_request_id (get_or_null "id" r)
    validate_stored_purpose p (get_or_null "purpose" r)
    check_present "purpose_binding" validate_purpose_binding r

  -- A grant is found by its digest or, in an older file, by its id.
  unfoldable pub check_verifier : Fields → Result (Unit {0})
  check_verifier r = elim (get "token_digest" r) [
    | some v ↦ validate_token_digest v >> ok tt
    | none ↦ elim (get "id" r) [
      | some v ↦ matching is_legacy_consent_id "consent token verifier is invalid" v >> ok tt
      | none ↦ err (consent_error "consent token verifier is invalid")
    ]
  ]

  unfoldable pub check_grant : Fields → Result (Unit {0})
  unfolding check_verifier
  check_grant r = do
    validate_stored_purpose p (get_or_null "purpose" r)
    check_present "purpose_binding" validate_purpose_binding r
    check_verifier r

  -- `_load_state` behind the read of the file
  unfoldable pub check_state : Json → Result Fields
  unfolding check_records check_request check_grant
  check_state (obj payload) = do
    let state =
        set_default "requests" (arr (of_list []))
          (set_default "grants" (arr (of_list [])) (set_default "version" (int (pos 1)) payload))
    let requests = get_or_null "requests" state
    let grants = get_or_null "grants" state
    check_list check_request requests
    check_list check_grant grants
    rs ← require_list requests
    gs ← require_list grants
    raise_if (ltb max_consent_records (length rs + length gs))
        (consent_error "consent state exceeds the supported record limit")
    ok state
  check_state _ = err state_invalid

  -- `_load_state`, from whether the file is there and what a read of it gives
  unfoldable pub load_from : Result Bool → Result Json → Result Fields
  unfolding check_state
  load_from (ok true) payload = payload >>= check_state
  load_from (ok false) payload = ok empty_state
  load_from (err e) payload = err e

  unfoldable pub load_state : {W : Type 0} → Host W → W → Result Fields
  unfolding load_from
  load_state h w = load_from (h.consent_exists w) (h.read_consent w)

  -- What the storage form makes of one grant, and of one request.
  abbrev pub normalize_purpose_field : Fields → Result Fields
  normalize_purpose_field r = elim (get "purpose" r) [
    | none ↦ ok r
    | some v ↦ validate_stored_purpose p v >> ok (put "purpose" (str (redact_value p v)) r)
  ]

  unfoldable pub normalize_grant : Fields → Result Fields
  normalize_grant r = do
    r' ← normalize_purpose_field r
    elim (get "id" r') [
      | none ↦ ok r'
      | some id ↦ do
        digest ← token_digest p id
        ok (put "token_digest" (str digest) (remove "id" r'))
    ]

  unfoldable pub normalize_request : Fields → Result Fields
  normalize_request r = do
    r' ← normalize_purpose_field r
    ok (
        if has_prefix "c_" (text_field p "consent_id" r')
        then put "consent_id" (str "c_[redacted]") r'
        else r')

  unfoldable pub normalize_records : (Fields → Result Fields) → List Json → Result (List Json)
  normalize_records normalize [] = ok []
  normalize_records normalize (obj r ∷ js) = do
    r' ← normalize r
    js' ← normalize_records normalize js
    ok (obj r' ∷ js')
  normalize_records normalize (j ∷ js) = do js' ← normalize_records normalize js; ok (j ∷ js')

  -- `state.get(name, [])`, changed in place
  abbrev pub normalize_collection : String → (Fields → Result Fields) → Fields → Result Fields
  normalize_collection name normalize state = elim (get name state) [
    | none ↦ ok state
    | some v ↦ do
      js ← require_list v
      js' ← normalize_records normalize js
      ok (put name (arr (of_list js')) state)
  ]

  unfoldable pub normalize_state : Fields → Result Fields
  unfolding normalize_records normalize_grant normalize_request
  normalize_state state = do
    s ← normalize_collection "grants" normalize_grant state
    s' ← normalize_collection "requests" normalize_request s
    ok (put "version" (int (pos 2)) s')

-- `_require_record_capacity`
unfoldable pub require_record_capacity : Fields → ℕ → Result (Unit {0})
require_record_capacity state additional = do
  requests ← require_list (elim (get "requests" state) [ none ↦ arr (of_list []) | some v ↦ v ])
  grants ← require_list (elim (get "grants" state) [ none ↦ arr (of_list []) | some v ↦ v ])
  raise_if (ltb max_consent_records (length requests + length grants + additional))
      (consent_error "consent state has reached the supported record limit")
