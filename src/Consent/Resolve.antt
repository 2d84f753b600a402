-- ===== src/Consent/Resolve.antt =====
-- `resolve_consent_request` of agent_personal_vault/consent.py.
use agent_personal_vault.Prelude.{
  ℕ, String, Bool, false, none, some, List, [], ◌∷◌, ◌++◌, leb, if◌then◌else◌,
}
use agent_personal_vault.Result.{ok, consent_error, require, raise_if}
use agent_personal_vault.Exec.{Exec, pure, lift, reads, ◌>>=◌, ◌>>◌}
use agent_personal_vault.Python.Json.{
  Json, str, arr, obj, Fields, end, field, of_list, get, get_or_null, put, set_default,
}
use agent_personal_vault.Platform.{Platform, text_field}
use agent_personal_vault.Host.{Host}
use agent_personal_vault.Audit.{now_utc}
use agent_personal_vault.Audit.Operation.{
  OperationArgs, begin_audit_operation, committed, delivered,
}
use agent_personal_vault.Audit.{redact_value}
use agent_personal_vault.Consent.Record.{
  validate_ttl_seconds, validate_request_id, validate_purpose_binding, public_record, stored_grant,
  request_expires_at,
}
use agent_personal_vault.Consent.State.{require_list, load_state, require_record_capacity}
use agent_personal_vault.Consent.Find.{Found, replace_found, has_text, find_request, or_raise}
use agent_personal_vault.Consent.Grant.{is_human, build_grant, write_state}

-- `{key: r.get(key, "") for key in keys}`
abbrev pub project : List String → Fields → Fields
project [] r = end
project (key ∷ keys) r =
    field key (elim (get key r) [ none ↦ str "" | some v ↦ v ]) (project keys r)

abbrev pub denial_keys : List String
denial_keys =
    "id" ∷ "action" ∷ "key" ∷ "purpose" ∷ "requested_at" ∷ "resolved_at" ∷ "status" ∷ "actor"
    ∷ "consent_id" ∷ []

-- The audit operation of a resolution; the strings are those of the request.
abbrev pub resolution :
    Platform → String → String → String → String → String → Fields → OperationArgs
resolution p actor action consent_id source request_id request = record {
  actor = actor;
  action = action;
  key = some (text_field p "key" request);
  purpose = some (text_field p "purpose" request);
  consent_id = some consent_id;
  source = some source;
  human_operated = some (is_human actor);
  request_id = some request_id;
}

-- `request["resolved_at"] = …` and the two assignments behind it
abbrev pub mark_resolved : Platform → String → ℕ → Fields → Fields
mark_resolved p actor time request =
    put "resolution_source" (str "request_approval")
      (put "resolved_by" (str actor) (put "resolved_at" (str (p.isoformat time)) request))

module _ {W : Type 0} (p : Platform) (h : Host W) where
  -- `_request_is_expired` with the clock read
  unfoldable pub request_is_expired : Fields → Exec W Bool
  request_is_expired request = do
    now ← now_utc p h
    expires_at ← lift (request_expires_at p request)
    pure (leb expires_at now)

  unfoldable pub deny_request : String → String → Fields → Found → Fields → Exec W Fields
  unfolding write_state
  deny_request request_id actor state f request = do
    operation ←
        begin_audit_operation p h
          (resolution p actor "consent_deny" request_id "request_denial" request_id request)
    let denied = put "status" (str "denied") request
    write_state p h (put "requests" (arr (of_list (replace_found f denied))) state)
    let result = project denial_keys denied
    committed p h operation
    delivered p h operation false none
    pure (put "purpose" (str (redact_value p (get_or_null "purpose" result))) result)

  unfoldable pub approve_request : String → String → Json → Fields → Found → Fields → Exec W Fields
  unfolding write_state build_grant
  approve_request request_id actor ttl_seconds state f request = do
    binding ← lift (validate_purpose_binding (get_or_null "purpose_binding" request))
    grant ← build_grant p h (record {
      action = text_field p "action" request;
      key = text_field p "key" request;
      purpose = str (text_field p "purpose" request);
      ttl_seconds = ttl_seconds;
      actor = actor;
      source = "request_approval";
      human_operated = is_human actor;
      binding = some binding;
    })
    let state' = set_default "grants" (arr (of_list [])) state
    grants ← lift (require_list (get_or_null "grants" state'))
    lift (require_record_capacity state' 1)
    operation ← begin_audit_operation p h (
        resolution p actor "consent_approve" (text_field p "id" grant) "request_approval" request_id
          request)
    stored ← lift (stored_grant p grant)
    let approved = put "consent_id" (str "c_[redacted]") (put "status" (str "approved") request)
    write_state p h (
        put "requests" (arr (of_list (replace_found f approved)))
          (put "grants" (arr (of_list (grants ++ obj stored ∷ []))) state'))
    committed p h operation
    delivered p h operation false none
    pure (field "request_id" (str request_id) (field "grant" (obj (public_record p grant)) end))

  unfoldable pub resolve_consent_request : Json → Bool → Json → String → Exec W Fields
  unfolding request_is_expired deny_request approve_request
  resolve_consent_request id approve ttl_seconds actor = do
    request_id ← lift (validate_request_id id)
    lift (if approve then validate_ttl_seconds ttl_seconds else ok 0)
    reads h.write_guard
    state ← reads (load_state p h)
    requests ← lift (require_list (get_or_null "requests" state))
    f ←
        lift
          (or_raise (find_request request_id requests) (consent_error "consent request not found"))
    lift (
        require (has_text "status" "pending" f.record_found)
          (consent_error "consent request is already resolved"))
    expired ← request_is_expired f.record_found
    lift (raise_if expired (consent_error "consent request has expired; create a new request"))
    resolved_at ← now_utc p h
    let request = mark_resolved p actor resolved_at f.record_found
    if approve
        then approve_request request_id actor ttl_seconds state f request
        else deny_request request_id actor state f request
