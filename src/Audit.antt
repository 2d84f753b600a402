-- ===== src/Audit.antt =====
-- agent_personal_vault/audit.py: what an audit event shows, and the write of one event.
pub mod Operation
pub mod Frame
pub mod Migration
pub mod Append
pub mod Lines
pub mod Display
pub mod Log
pub mod Tail
pub mod Summary
pub mod Sweep
pub mod Retention
pub mod Pruning
pub mod PrunedLog
pub mod States
pub mod LastStates
pub mod Outcomes
use agent_personal_vault.Prelude.{
  ℕ, ◌+◌, String, Bool, true, false, ◌&&◌, ◌||◌, Option, none, some, ◌==◌, ltb, nat_eq,
  if◌then◌else◌,
}
use agent_personal_vault.Result.{Result, ok, err, value_error, resource_limit_error, raise_if}
use agent_personal_vault.Exec.{Exec, pure, lift, reads, ◌>>=◌, ◌>>◌}
use agent_personal_vault.Python.Text.{
  ◌^^◌, size, utf8_size, all_chars, is_urlsafe, after_prefix, has_prefix,
}
use agent_personal_vault.Python.Words.{collapse}
use agent_personal_vault.Python.Json.{Json, null, str, bool, Fields, end, field, put}
use agent_personal_vault.Limits.{max_audit_bytes}
use agent_personal_vault.Platform.{Platform, to_text, whole_second}
use agent_personal_vault.Host.{Host}

-- A prefix, then exactly `n` characters of `[A-Za-z0-9_-]`.
abbrev pub is_id : String → ℕ → String → Bool
is_id prefix n s = elim (after_prefix prefix s) [
  | none ↦ false
  | some rest ↦ all_chars is_urlsafe rest && nat_eq (size rest) n
]

abbrev pub is_operation_id : String → Bool
is_operation_id s = is_id "o_" 24 s

abbrev pub is_operation_state : String → Bool
is_operation_state s =
    s == "prepared"
    || s == "committed"
    || s == "delivered"
    || s == "rejected"
    || s == "outcome_unknown"

abbrev pub is_purpose_code : String → Bool
is_purpose_code s =
    s == "encryption_migration"
    || s == "local_draft"
    || s == "profile_cleanup"
    || s == "profile_setup"
    || s == "profile_update"
    || s == "test_dummy"

module _ (p : Platform) where
  -- The display code of a purpose that is given.
  unfoldable pub redact_text : String → String
  redact_text value =
      let normalized = collapse (p.nfkc value) in
      if normalized == ""
      then ""
      else if is_purpose_code normalized
      then normalized
      else "[redacted]"

  unfoldable pub redact_purpose : Option String → String
  unfolding redact_text
  redact_purpose none = ""
  redact_purpose (some value) = redact_text value

  -- `redact_purpose` of a stored value
  abbrev pub redact_value : Json → String
  redact_value null = ""
  redact_value v = redact_text (to_text p v)

  unfoldable pub redact_consent_id : Option String → String
  redact_consent_id value =
      let text = collapse (elim value [ none ↦ "" | some s ↦ s ]) in
      if has_prefix "c_" text then "c_[redacted]" else p.clean_text text

-- The arguments of `write_audit_event`, apart from the path.
pub record EventArgs : Type 0 where
  pub actor : String
  pub action : String
  pub key : Option String
  pub raw_returned : Bool
  pub purpose : Option String
  pub outcome : String
  pub consent_id : Option String
  pub source : Option String
  pub human_operated : Option Bool
  pub request_id : Option String
  pub operation_id : Option String
  pub operation_state : Option String

-- `if value is not None: event[key] = f(value)`
abbrev pub put_some {ℓ} : {A : Type ℓ} → String → (A → Json) → Option A → Fields → Fields
put_some key f none event = event
put_some key f (some value) event = put key (f value) event

-- The operation's id and state, which come together.
unfoldable pub put_operation : Option String → Option String → Fields → Result Fields
put_operation none none event = ok event
put_operation none (some state) event = err (value_error "audit operation id is invalid")
put_operation (some id) state event =
    if is_operation_id id
    then elim state [
      | none ↦ err (value_error "audit operation state is invalid")
      | some s ↦
          if is_operation_state s
          then ok (put "operation_state" (str s) (put "operation_id" (str id) event))
          else err (value_error "audit operation state is invalid")
    ]
    else err (value_error "audit operation id is invalid")

abbrev pub or_empty : Option String → String
or_empty none = ""
or_empty (some s) = s

module _ {W : Type 0} (p : Platform) (h : Host W) where
  -- `datetime.now(timezone.utc).replace(microsecond=0)`
  abbrev pub now_utc : Exec W ℕ
  now_utc w = let (t, w') = h.now w in (ok (whole_second t), w')

  -- `"…" + secrets.token_urlsafe(18)`
  abbrev pub new_id : String → Exec W String
  new_id prefix w = let (t, w') = h.token w in (ok (prefix ^^ t), w')

  -- The event that is written, at its time.
  unfoldable pub build_event : EventArgs → ℕ → Result Fields
  unfolding redact_purpose redact_consent_id put_operation
  build_event a timestamp = put_operation a.operation_id a.operation_state (
      put_some "request_id" (λ s. str (p.clean_text s)) a.request_id
        (put_some "human_operated" bool a.human_operated (
          put_some "source" (λ s. str (p.clean_text s)) a.source
            (field "timestamp" (str (p.isoformat timestamp)) (
              field "actor" (str a.actor) (
                field "action" (str a.action) (
                  field "key" (str (or_empty a.key)) (
                    field "raw_returned" (bool a.raw_returned) (
                      field "purpose" (str (redact_purpose p a.purpose)) (
                        field "consent_id" (str (redact_consent_id p a.consent_id))
                          (field "outcome" (str a.outcome) end)))))))))))

  -- `read_sidecar_bytes(…) if private_file_exists(path) else b""`
  unfoldable pub existing_log : W → Result String
  existing_log w =
      let text = h.read_audit w in
      elim (h.audit_exists w) [ ok true ↦ text | ok false ↦ ok "" | err e ↦ err e ]

  -- The part under the lock: the line is appended if the log stays within its limit.
  unfoldable pub append_event : Fields → Exec W (Unit {0})
  unfolding existing_log
  append_event event = do
    reads h.write_guard
    existing ← reads existing_log
    let line = p.dumps_line event ^^ "\n"
    lift (
        raise_if (ltb max_audit_bytes (utf8_size existing + utf8_size line))
          (resource_limit_error "private log has reached the supported size limit"))
    h.write_audit (existing ^^ line)

  unfoldable pub write_audit_event : EventArgs → Exec W Fields
  unfolding build_event append_event
  write_audit_event a = do
    timestamp ← now_utc
    event ← lift (build_event a timestamp)
    append_event event
    pure event
