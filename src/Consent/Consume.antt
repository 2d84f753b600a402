-- ===== src/Consent/Consume.antt =====
-- `prepare_consent_consumption` and `validate_and_consume_consent` of
-- agent_personal_vault/consent.py.
use agent_personal_vault.Prelude.{String, false, none, some, leb}
use agent_personal_vault.Result.{consent_error, raise_if}
use agent_personal_vault.Exec.{Exec, pure, lift, reads, ◌>>=◌, ◌>>◌}
use agent_personal_vault.Python.Json.{str, arr, Fields, of_list, put}
use agent_personal_vault.Platform.{Platform}
use agent_personal_vault.Host.{Host}
use agent_personal_vault.Audit.{now_utc}
use agent_personal_vault.Audit.Operation.{
  AuditOperation, begin_audit_operation, committed, delivered,
}
use agent_personal_vault.Consent.Record.{public_record}
use agent_personal_vault.Consent.Use.{Selection, select_grant}
use agent_personal_vault.Consent.Find.{replace_found}
use agent_personal_vault.Consent.Grant.{write_state}

-- The state with the selected grant changed.
abbrev pub with_grant : Selection → Fields → Fields
with_grant s r = put "grants" (arr (of_list (replace_found s.found r))) s.state

module _ {W : Type 0} (p : Platform) (h : Host W) where
  unfoldable pub prepare_consent_consumption :
      String → String → String → String → String → Exec W (Fields × AuditOperation)
  unfolding write_state
  prepare_consent_consumption consent_id action key purpose actor = do
    selected ← reads (select_grant p h consent_id action key purpose)
    now ← now_utc p h
    lift (raise_if (leb selected.expires_at now) (consent_error "consent token has expired"))
    operation ← begin_audit_operation p h (record {
      actor = actor;
      action = "consent_consume";
      key = some key;
      purpose = some purpose;
      consent_id = some consent_id;
      source = none;
      human_operated = none;
      request_id = none;
    })
    used_at ← now_utc p h
    let used = put "used_at" (str (p.isoformat used_at)) selected.found.record_found
    write_state p h (with_grant selected used)
    committed p h operation
    pure (public_record p used, operation)

  unfoldable pub validate_and_consume_consent :
      String → String → String → String → String → Exec W Fields
  unfolding prepare_consent_consumption
  validate_and_consume_consent consent_id action key purpose actor = do
    (result, operation) ← prepare_consent_consumption consent_id action key purpose actor
    delivered p h operation false none
    pure result
