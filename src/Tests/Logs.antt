-- ===== src/Tests/Logs.antt =====
-- The theorems on the audit log at concrete inputs. A line `I...I` stands for an event whose time is as
-- many seconds as it has strokes.
use agent_personal_vault.Prelude.{
  ◌*◌, code, String, ◌≡◌, refl, true, false, none, some, [], ◌∷◌, All, nat_eq, if◌then◌else◌,
}
use agent_personal_vault.Result.{ok, ◌>>=◌}
use agent_personal_vault.Python.Json.{pos, str, obj, Fields, end, field, get, put}
use agent_personal_vault.Platform.{Moment, second}
use agent_personal_vault.Audit.{redact_text, existing_log}
use agent_personal_vault.Audit.Log.{
  Loaded, loaded, malformed, Tail, split_lines, strip_bytes, read_line, read_lines,
  read_audit_records, audit_tail,
}
use agent_personal_vault.Audit.Tail.{IsShown, audit_tail-IsShown}
use agent_personal_vault.Audit.Summary.{
  Summary, audit_summary, summarize, bump, set_state, summary_of, count_states,
}
use agent_personal_vault.Audit.Retention.{Counted}
use agent_personal_vault.Audit.PrunedLog.{PrunedLog}
use agent_personal_vault.Audit.Outcomes.{Balanced, audit_summary-Balanced}
use agent_personal_vault.Tests.Desk.{platform, Desk, host}
use agent_personal_vault.Tests.Model.{model}

abbrev event_at : String → Fields
event_at t = field "timestamp" (str t) (
    field "action" (str "read") (
      field "purpose" (str "for a letter to Ada")
        (field "operation_id" (str "o_1") (field "operation_state" (str "delivered") end))))

abbrev load_line : String → Loaded
load_line String.[] = malformed
load_line (String.◌∷◌ c s) =
    if nat_eq (code c) b'I' then loaded (obj (event_at (String.◌∷◌ c s))) else malformed

abbrev desk : Desk
desk = record {
  consent_file = none;
  audit_file = some "I\n{torn\nIII\n";
  clock = 0;
  migrating = false;
}

abbrev tail_shown : Tail
tail_shown = record {
  shown = put "purpose" (str "[redacted]") (event_at "III") ∷ [];
  malformed_records_skipped = 1;
  integrity_warning = true;
}

tail_read : audit_tail platform load_line host (pos 1) desk ≡ ok tail_shown
unfolding model audit_tail read_audit_records existing_log split_lines read_lines read_line
    strip_bytes ◌>>=◌ redact_text get put
tail_read = refl

audit_tail-IsShown_example : All IsShown tail_shown.shown
audit_tail-IsShown_example =
    audit_tail-IsShown platform load_line host (pos 1) desk tail_shown tail_read

abbrev summary : Summary
summary = record {
  events = 2;
  by_action = ("read", 2) ∷ [];
  raw_access_by_key = [];
  malformed_records_skipped = 1;
  integrity_warning = true;
  delivered = 1;
  rejected = 0;
  outcome_unknown = 0;
  incomplete_operations = 0;
}

summary_read : audit_summary platform load_line host desk ≡ ok summary
unfolding model audit_tail read_audit_records existing_log split_lines read_lines read_line
    strip_bytes ◌>>=◌ redact_text get put audit_summary summarize summary_of count_states bump
    set_state
summary_read = refl

audit_summary-Balanced_example :
    (r : Tail) × (audit_tail platform load_line host (pos 0) desk ≡ ok r)
    × Balanced platform load_line host r.shown summary
audit_summary-Balanced_example =
    audit_summary-Balanced platform load_line host desk summary summary_read

-- A day and two seconds; so the cutoff, a day before, is at two seconds.
abbrev pruning_time : Moment
pruning_time = record { instant = 86_402 * second; aware = true }

abbrev pruned_desk : Desk
pruned_desk = record desk { audit_file = some "{torn\n{}\n" }

abbrev pruned : Counted
pruned = record { removed = 1; retained = 2; malformed_retained = 1 }
