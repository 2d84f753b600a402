-- ===== src/Audit/Operation.antt =====
-- `AuditOperation` and `begin_audit_operation` of agent_personal_vault/audit.py: the phases of one
-- operation, correlated by its id.
use agent_personal_vault.Prelude.{
  String, Bool, true, false, Option, none, some, ◌==◌, if◌then◌else◌,
}
use agent_personal_vault.Result.{ok, err}
use agent_personal_vault.Exec.{Exec, pure, ◌>>=◌, ◌>>◌}
use agent_personal_vault.Python.Json.{Fields}
use agent_personal_vault.Platform.{Platform}
use agent_personal_vault.Host.{Host}
use agent_personal_vault.Audit.{EventArgs, new_id, write_audit_event}

-- The frozen fields of an operation, apart from the path.
pub record AuditOperation : Type 0 where
  pub operation_id : String
  pub actor : String
  pub action : String
  pub key : Option String
  pub purpose : Option String
  pub consent_id : Option String
  pub source : Option String
  pub human_operated : Option Bool
  pub request_id : Option String

-- The keyword arguments of `begin_audit_operation`.
pub record OperationArgs : Type 0 where
  pub actor : String
  pub action : String
  pub key : Option String
  pub purpose : Option String
  pub consent_id : Option String
  pub source : Option String
  pub human_operated : Option Bool
  pub request_id : Option String

-- The event of one phase; `action or self.action` passes over an empty text.
abbrev pub phase_event : AuditOperation → String → Bool → String → Option String → EventArgs
phase_event op state raw_returned outcome action = record {
  actor = op.actor;
  action = elim action [ none ↦ op.action | some a ↦ if a == "" then op.action else a ];
  key = op.key;
  raw_returned = raw_returned;
  purpose = op.purpose;
  outcome = outcome;
  consent_id = op.consent_id;
  source = op.source;
  human_operated = op.human_operated;
  request_id = op.request_id;
  operation_id = some op.operation_id;
  operation_state = some state;
}

abbrev pub start_operation : OperationArgs → String → AuditOperation
start_operation a id = record {
  operation_id = id;
  actor = a.actor;
  action = a.action;
  key = a.key;
  purpose = a.purpose;
  consent_id = a.consent_id;
  source = a.source;
  human_operated = a.human_operated;
  request_id = a.request_id;
}

module _ {W : Type 0} (p : Platform) (h : Host W) where
  unfoldable pub committed : AuditOperation → Exec W Fields
  committed op = write_audit_event p h (phase_event op "committed" false "committed" none)

  -- `delivered(raw_returned=…, action=…)`
  unfoldable pub delivered : AuditOperation → Bool → Option String → Exec W Fields
  delivered op raw_returned action =
      write_audit_event p h (phase_event op "delivered" raw_returned "allowed" action)

  unfoldable pub rejected : AuditOperation → Exec W Fields
  rejected op = write_audit_event p h (phase_event op "rejected" false "denied" none)

  unfoldable pub outcome_unknown : AuditOperation → Bool → Exec W Fields
  outcome_unknown op raw_returned =
      write_audit_event p h (phase_event op "outcome_unknown" raw_returned "outcome_unknown" none)

  -- `try: …  except Exception: return False`
  abbrev pub succeeds : {A : Type 0} → Exec W A → Exec W Bool
  succeeds m w = let (r, w') = m w in (elim r [ ok _ ↦ ok true | err _ ↦ ok false ], w')

  unfoldable pub try_delivered : AuditOperation → Bool → Option String → Exec W Bool
  unfolding delivered
  try_delivered op raw_returned action = succeeds (delivered op raw_returned action)

  unfoldable pub try_outcome_unknown : AuditOperation → Bool → Exec W Bool
  unfolding outcome_unknown
  try_outcome_unknown op raw_returned = succeeds (outcome_unknown op raw_returned)

  unfoldable pub begin_audit_operation : OperationArgs → Exec W AuditOperation
  begin_audit_operation a = do
    id ← new_id p h "o_"
    let op = start_operation a id
    write_audit_event p h (phase_event op "prepared" false "pending" none)
    pure op
