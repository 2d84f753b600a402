-- ===== src/Tests/Model.antt =====
-- The definitions that a test computes with: a test names `model` on its `unfolding` line.
use agent_personal_vault.Python.Text.{utf8_size}
use agent_personal_vault.Python.Words.{split, join, collapse, strip}
use agent_personal_vault.Python.Json.{get, put, remove}
use agent_personal_vault.Exec.{continue}
use agent_personal_vault.Limits.{require_text_limit, validate_json_resources}
use agent_personal_vault.Platform.{add_seconds, sub_days}
use agent_personal_vault.Audit.{
  redact_text, redact_purpose, redact_consent_id, put_operation, build_event, existing_log,
  append_event, write_audit_event,
}
use agent_personal_vault.Audit.Operation.{
  committed, delivered, rejected, outcome_unknown, try_delivered, try_outcome_unknown,
  begin_audit_operation,
}
use agent_personal_vault.Consent.Record.{
  validate_ttl_seconds, validate_request_id, validate_consent_id, validate_token_digest,
  validate_purpose_binding, token_digest, purpose_binding, normalize_purpose,
  validate_stored_purpose, public_record, stored_grant, parse_moment, parse_expires_at,
  request_expires_at,
}
use agent_personal_vault.Consent.State.{
  check_records, check_request, check_verifier, check_grant, check_state, load_from, load_state,
  normalize_grant, normalize_request, normalize_records, normalize_state, require_record_capacity,
}
use agent_personal_vault.Consent.Find.{find_request, match_token, is_grant_of, find_grant}
use agent_personal_vault.Consent.Grant.{build_grant, write_state}
use agent_personal_vault.Consent.Create.{issue_consent, create_consent_request}
use agent_personal_vault.Consent.Resolve.{
  request_is_expired, deny_request, approve_request, resolve_consent_request,
}
use agent_personal_vault.Consent.Use.{check_use, find_token, select_grant}
use agent_personal_vault.Consent.Consume.{prepare_consent_consumption, validate_and_consume_consent}
use agent_personal_vault.Consent.Prune.{grant_terminal_at, request_terminal_at, retain}
use agent_personal_vault.Consent.Retention.{
  validate_retention_days, prune_state, prune_consent_records,
}
use agent_personal_vault.Result.{◌>>=◌}

unfoldable pub model : Unit {0}
unfolding utf8_size split join collapse strip get put remove continue require_text_limit
    validate_json_resources add_seconds sub_days redact_text redact_purpose redact_consent_id
    put_operation build_event existing_log append_event write_audit_event committed delivered
    rejected outcome_unknown try_delivered try_outcome_unknown begin_audit_operation
    validate_ttl_seconds validate_request_id validate_consent_id validate_token_digest
    validate_purpose_binding token_digest purpose_binding normalize_purpose validate_stored_purpose
    public_record stored_grant parse_moment parse_expires_at request_expires_at check_records
    check_request check_verifier check_grant check_state load_from load_state normalize_grant
    normalize_request normalize_records normalize_state require_record_capacity find_request
    match_token is_grant_of find_grant build_grant write_state issue_consent create_consent_request
    request_is_expired deny_request approve_request resolve_consent_request check_use find_token
    select_grant prepare_consent_consumption validate_and_consume_consent grant_terminal_at
    request_terminal_at retain validate_retention_days prune_state prune_consent_records ◌>>=◌
model = tt
