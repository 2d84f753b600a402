-- ===== src/Consent/Create.antt =====
-- `issue_consent` and `create_consent_request` of agent_personal_vault/consent.py.
--
-- The body of a `with _state_lock` block runs as one step, as the lock makes it do.
use agent_personal_vault.Prelude.{String, Bool, false, none, some, [], ◌∷◌, ◌++◌}
use agent_personal_vault.Exec.{Exec, pure, lift, reads, ◌>>=◌, ◌>>◌}
use agent_personal_vault.Python.Json.{
  Json, str, arr, obj, Fields, end, field, of_list, get_or_null, put, set_default,
}
use agent_personal_vault.Platform.{Platform, text_field, add_seconds}
use agent_personal_vault.Host.{Host}
use agent_personal_vault.Audit.{redact_text, now_utc, new_id}
use agent_personal_vault.Audit.Operation.{begin_audit_operation, committed, delivered}
use agent_personal_vault.Consent.Record.{
  request_ttl_seconds, purpose_binding, normalize_purpose, public_record, stored_grant,
}
use agent_personal_vault.Consent.State.{require_list, load_state, require_record_capacity}
use agent_personal_vault.Consent.Grant.{build_grant, write_state}

module _ {W : Type 0} (p : Platform) (h : Host W) where
  unfoldable pub issue_consent :
      String → String → String → Json → String → String → Bool → Exec W Fields
  unfolding build_grant write_state
  issue_consent action key purpose ttl_seconds actor source human_operated = do
    grant ← build_grant p h (record {
      action = action;
      key = key;
      purpose = str purpose;
      ttl_seconds = ttl_seconds;
      actor = actor;
      source = source;
      human_operated = human_operated;
      binding = none;
    })
    reads h.write_guard
    loaded ← reads (load_state p h)
    let state = set_default "grants" (arr (of_list [])) loaded
    grants ← lift (require_list (get_or_null "grants" state))
    lift (require_record_capacity state 1)
    operation ← begin_audit_operation p h (record {
      actor = actor;
      action = "consent_grant";
      key = some key;
      purpose = some purpose;
      consent_id = some (text_field p "id" grant);
      source = some source;
      human_operated = some human_operated;
      request_id = none;
    })
    stored ← lift (stored_grant p grant)
    write_state p h (put "grants" (arr (of_list (grants ++ obj stored ∷ []))) state)
    committed p h operation
    delivered p h operation false none
    pure (public_record p grant)

  unfoldable pub create_consent_request : String → String → String → String → Exec W Fields
  unfolding write_state
  create_consent_request action key purpose actor = do
    normalized ← lift (normalize_purpose p (str purpose))
    requested_at ← now_utc p h
    id ← new_id p h "r_"
    expires_at ← lift (add_seconds requested_at request_ttl_seconds)
    let request = field "id" (str id) (
        field "action" (str action) (
          field "key" (str key) (
            field "purpose" (str (redact_text p normalized)) (
              field "purpose_binding" (str (purpose_binding p normalized)) (
                field "requested_at" (str (p.isoformat requested_at)) (
                  field "expires_at" (str (p.isoformat expires_at)) (
                    field "resolved_at" (str "") (
                      field "status" (str "pending") (
                        field "actor" (str actor) (
                          field "source" (str "request") (field "consent_id" (str "") end)))))))))))
    reads h.write_guard
    loaded ← reads (load_state p h)
    let state = set_default "requests" (arr (of_list [])) loaded
    requests ← lift (require_list (get_or_null "requests" state))
    lift (require_record_capacity state 1)
    operation ← begin_audit_operation p h (record {
      actor = actor;
      action = "consent_request";
      key = some key;
      purpose = some purpose;
      consent_id = some id;
      source = some "request";
      human_operated = some false;
      request_id = some id;
    })
    write_state p h (put "requests" (arr (of_list (requests ++ obj request ∷ []))) state)
    committed p h operation
    delivered p h operation false none
    pure (public_record p request)
