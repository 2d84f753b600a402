-- ===== src/Tests/Consents.antt =====
-- The life of one consent token, from the grant to the second attempt to use it.
use agent_personal_vault.Prelude.{
  ◌++◌, ◌∷◌, ℕ, ◌+◌, [], List, some, ◌*◌, String, ◌≡◌, ◌≢◌, refl, sym, subst, true, false, none,
  All, leb,
}
use agent_personal_vault.Result.{ok_inj, Result, ok, err, consent_error}
use agent_personal_vault.Python.Json.{
  Json, arr, to_list, obj, pos, int, str, Fields, end, get_or_null,
}
use agent_personal_vault.Platform.{second, whole_second}
use agent_personal_vault.Audit.Operation.{AuditOperation}
use agent_personal_vault.Consent.State.{require_list, load_state}
use agent_personal_vault.Consent.Create.{create_consent_request}
use agent_personal_vault.Consent.Resolve.{resolve_consent_request}
use agent_personal_vault.Consent.Use.{Selection}
use agent_personal_vault.Consent.Consume.{prepare_consent_consumption}
use agent_personal_vault.Consent.Conditions.{Selects}
use agent_personal_vault.Consent.Normal.{HasNoId}
use agent_personal_vault.Consent.Once.{IsDigested, consumption_needs_grant, consumption_once}
use agent_personal_vault.Audit.Frame.{SameConsent-refl}
use agent_personal_vault.Consent.Grant.{write_state}
use agent_personal_vault.Consent.ForToken.{FirstForToken}
use agent_personal_vault.Consent.Stored.{HasGrants}
use agent_personal_vault.Consent.Redaction.{IsRedacted, write_state-IsRedacted}
use agent_personal_vault.Consent.Retention.{Pruned, prune_state}
use agent_personal_vault.Audit.{EventArgs, existing_log, write_audit_event}
use agent_personal_vault.Audit.Lines.{ends_line, write_audit_event-adds_line}
use agent_personal_vault.Audit.Log.{split_lines}
use agent_personal_vault.Python.Text.{◌^^◌}
use agent_personal_vault.Audit.Append.{Appended, write_audit_event-Appended}
use agent_personal_vault.Tests.Model.{model}
use agent_personal_vault.Tests.Desk.{Desk, platform, host, platform-PlatformLaws, host-HostLaws}

abbrev pub new_desk : Desk
new_desk = record { consent_file = none; audit_file = none; clock = 10 * second; migrating = false }

abbrev pub token : String
token = "c_AAAAAAAAAAAAAAAAAAAAAAAA"

abbrev request_id : String
request_id = "r_AAAAAAAAAAAAAAAAAAAAAAAA"

-- A request by an agent, which the user approves.
abbrev requested : Desk
requested = (create_consent_request platform host "get" "EMAIL" "local_draft" "mcp" new_desk).1

abbrev pub approved : Desk
approved =
    (resolve_consent_request platform host (str request_id) true (int (pos 300)) "cli" requested).1

abbrev no_operation : AuditOperation
no_operation = record {
  operation_id = "";
  actor = "";
  action = "";
  key = none;
  purpose = none;
  consent_id = none;
  source = none;
  human_operated = none;
  request_id = none;
}

abbrev consume : Desk → Result (Fields × AuditOperation) × Desk
consume = prepare_consent_consumption platform host token "get" "EMAIL" "local_draft" "cli"

abbrev value_of : Result (Fields × AuditOperation) → Fields × AuditOperation
value_of (ok v) = v
value_of (err e) = (end, no_operation)

-- The attempt that succeeds, what it returns, and the attempts that do not.
abbrev shown : Fields × AuditOperation
shown = value_of (consume approved).0

abbrev consumed : Desk
consumed = (consume approved).1

consume-ok : consume approved ≡ (ok (shown.0, shown.1), consumed)
unfolding model
consume-ok = refl

consume_again : (consume consumed).0 ≡ err (consent_error "consent token has already been used")
unfolding model
consume_again = refl

consume_late :
    (consume (record approved { clock = 310 * second })).0
    ≡ err (consent_error "consent token has expired")
unfolding model
consume_late = refl

consume_other_key :
    (prepare_consent_consumption platform host token "get" "PHONE" "local_draft" "cli" approved).0
    ≡ err (consent_error "consent token key mismatch")
unfolding model
consume_other_key = refl

approved-IsDigested : IsDigested platform host approved
unfolding model
approved-IsDigested state grants loads lists =
    subst (All HasNoId)
      (ok_inj
        (subst (λ s. require_list (get_or_null "grants" s) ≡ ok grants) (sym (ok_inj loads)) lists))
      (refl, tt)

consumption_needs_grant_example :
    (s : Selection) × (selects : Selects platform host token "get" "EMAIL" "local_draft" approved s)
    × FirstForToken token selects.first.digest selects.grants s.found
    × (leb s.expires_at (whole_second (host.now approved).0) ≡ false)
consumption_needs_grant_example =
    consumption_needs_grant platform host host-HostLaws token "get" "EMAIL" "local_draft" "cli"
      approved consumed shown.0 shown.1 consume-ok

consumption_once_example :
    (prepare_consent_consumption platform host token "get" "EMAIL" "local_draft" "cli" consumed).0
    ≢ ok (end, no_operation)
consumption_once_example =
    consumption_once platform platform-PlatformLaws host host-HostLaws token "get" "EMAIL"
      "local_draft" "cli" approved consumed shown.0 shown.1 approved-IsDigested consume-ok "get"
      "EMAIL" "local_draft" "cli" consumed (SameConsent-refl consumed) (end, no_operation)

abbrev list_of : Json → List Json
list_of (arr js) = to_list js
list_of _ = []

-- What the file of the approved request loads as.
abbrev state_of : Result Fields → Fields
state_of (ok s) = s
state_of (err e) = end

abbrev approved_state : Fields
approved_state = state_of (load_state platform host approved)

abbrev approved_grants : List Json
approved_grants = list_of (get_or_null "grants" approved_state)

write_state-IsRedacted_example :
    (stored : Fields) × (js : List Json) × (host.read_consent
        (write_state platform host approved_state approved).1
      ≡ ok (obj stored))
    × HasGrants js stored
    × All IsRedacted js
unfolding model
write_state-IsRedacted_example =
    write_state-IsRedacted platform host host-HostLaws approved_grants approved_state approved refl
      refl

-- Thirty days later the token, which nobody used, is old.
abbrev a_month : ℕ
a_month = 10 * second + 31 * (86_400 * second)

abbrev cutoff : ℕ
cutoff = 10 * second + 86_400 * second

abbrev pruned : Pruned
pruned = record { grants_removed = 1; requests_removed = 1; retained = 0 }

abbrev pruned_desk : Desk
pruned_desk = (prune_state platform host a_month cutoff approved).1

-- One event in an empty log.
abbrev an_event : EventArgs
an_event = record {
  actor = "cli";
  action = "get";
  key = some "EMAIL";
  raw_returned = true;
  purpose = some "local_draft";
  outcome = "allowed";
  consent_id = some token;
  source = none;
  human_operated = none;
  request_id = none;
  operation_id = none;
  operation_state = none;
}

abbrev event_of : Result Fields → Fields
event_of (ok d) = d
event_of (err e) = end

abbrev logged : Result Fields × Desk
logged = write_audit_event platform host an_event new_desk

logged-ok : write_audit_event platform host an_event new_desk ≡ (ok (event_of logged.0), logged.1)
unfolding model
logged-ok = refl

write_audit_event-Appended_example :
    Appended platform host an_event new_desk (event_of logged.0) logged.1
write_audit_event-Appended_example =
    write_audit_event-Appended platform host host-HostLaws an_event new_desk logged.1
      (event_of logged.0) logged-ok

write_audit_event-adds_line_example :
    (log : String) × (host.read_audit logged.1 ≡ ok log)
    × (ends_line log ≡ true)
    × (split_lines log ≡ split_lines "" ++ (platform.dumps_line (event_of logged.0) ^^ "\n") ∷ [])
unfolding existing_log ends_line
write_audit_event-adds_line_example =
    write_audit_event-adds_line platform platform-PlatformLaws host host-HostLaws an_event new_desk
      logged.1 (event_of logged.0) "" refl refl logged-ok
