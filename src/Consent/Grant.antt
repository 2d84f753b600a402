-- ===== src/Consent/Grant.antt =====
-- `_build_grant` and `_write_state` of agent_personal_vault/consent.py.
use agent_personal_vault.Prelude.{String, Bool, Option, none, some, ◌==◌, ◌||◌}
use agent_personal_vault.Result.{Result, ok, err}
use agent_personal_vault.Exec.{Exec, pure, lift, ◌>>=◌}
use agent_personal_vault.Python.Json.{Json, bool, str, obj, Fields, end, field}
use agent_personal_vault.Platform.{Platform, add_seconds}
use agent_personal_vault.Host.{Host}
use agent_personal_vault.Audit.{redact_text, now_utc, new_id}
use agent_personal_vault.Consent.Record.{
  validate_ttl_seconds, validate_purpose_binding, purpose_binding, normalize_purpose,
  validate_stored_purpose,
}
use agent_personal_vault.Consent.State.{normalize_state}

-- `actor in {"cli", "gui"}`
abbrev pub is_human : String → Bool
is_human actor = actor == "cli" || actor == "gui"

-- The arguments of `_build_grant`, with the purpose and its binding as they are stored.
pub record GrantArgs : Type 0 where
  pub action : String
  pub key : String
  pub purpose : Json
  pub ttl_seconds : Json
  pub actor : String
  pub source : String
  pub human_operated : Bool
  pub binding : Option String

module _ {W : Type 0} (p : Platform) (h : Host W) where
  -- The binding and the displayed purpose of a grant.
  abbrev pub grant_purpose : GrantArgs → Result (String × String)
  grant_purpose a = elim a.binding [
    | none ↦ elim (normalize_purpose p a.purpose) [
      | ok normalized ↦ ok (purpose_binding p normalized, redact_text p normalized)
      | err e ↦ err e
    ]
    | some given ↦ elim (validate_purpose_binding (str given)) [
      | ok binding ↦ elim (validate_stored_purpose p a.purpose) [
        | ok purpose ↦ ok (binding, redact_text p purpose)
        | err e ↦ err e
      ]
      | err e ↦ err e
    ]
  ]

  unfoldable pub build_grant : GrantArgs → Exec W Fields
  build_grant a = do
    purpose ← lift (grant_purpose a)
    ttl ← lift (validate_ttl_seconds a.ttl_seconds)
    now ← now_utc p h
    expires_at ← lift (add_seconds now ttl)
    id ← new_id p h "c_"
    pure (
        field "id" (str id) (
          field "action" (str a.action) (
            field "key" (str a.key) (
              field "purpose" (str purpose.1) (
                field "purpose_binding" (str purpose.0) (
                  field "issued_at" (str (p.isoformat now)) (
                    field "expires_at" (str (p.isoformat expires_at)) (
                      field "used_at" (str "") (
                        field "actor" (str a.actor) (
                          field "source" (str a.source)
                            (field "human_operated" (bool a.human_operated) end)))))))))))

  -- `_write_state`: the copy that is normalized is the one that is written.
  unfoldable pub write_state : Fields → Exec W (Unit {0})
  write_state state = do stored ← lift (normalize_state p state); h.write_consent (obj stored)
