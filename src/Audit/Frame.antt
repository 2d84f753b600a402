-- ===== src/Audit/Frame.antt =====
-- The writes of the audit log leave the consent file alone.
use agent_personal_vault.Prelude.{String, ◌∙◌, refl}
use agent_personal_vault.Result.{Result, ok, err}
use agent_personal_vault.Exec.{Exec, lift, reads, continue, ◌>>=◌}
use agent_personal_vault.Python.Json.{Fields}
use agent_personal_vault.Platform.{Platform}
use agent_personal_vault.Host.{Host, HostLaws, SameConsent}
use agent_personal_vault.Audit.{EventArgs, now_utc, new_id, append_event, write_audit_event}
use agent_personal_vault.Audit.Operation.{OperationArgs, begin_audit_operation}

module _ {W : Type 0} {h : Host W} where
  pub SameConsent-refl : (w : W) → SameConsent h w w
  SameConsent-refl w = record { exists = refl; content = refl }

  pub SameConsent-trans :
      {w w' w'' : W} → SameConsent h w w' → SameConsent h w' w'' → SameConsent h w w''
  SameConsent-trans a b = record { exists = b.exists ∙ a.exists; content = b.content ∙ a.content }

-- A step that leaves the consent file as it was, however it ends.
pub record Leaves {W A : Type 0} (h : Host W) (m : Exec W A) : Type 0 where
  pub at : (w : W) → SameConsent h w (m w).1

module _ {W : Type 0} {h : Host W} where
  pub Leaves-pure : {A : Type 0} (r : Result A) → Leaves h (lift r)
  Leaves-pure r = record { at = λ w. SameConsent-refl w }

  pub Leaves-reads : {A : Type 0} (f : W → Result A) → Leaves h (reads f)
  Leaves-reads f = record { at = λ w. SameConsent-refl w }

  pub Leaves-bind :
      {A B : Type 0} (m : Exec W A) (f : A → Exec W B)
      → Leaves h m
      → ((a : A) → Leaves h (f a))
      → Leaves h (m >>= f)
  unfolding continue
  Leaves-bind {A} {B} m f hm hf = record {
    at = λ w. SameConsent-trans (hm.at w) (rest (m w).0 (m w).1);
  }
    where
      rest : (r : Result A) (w : W) → SameConsent h w (continue r w f).1
      rest (ok a) w = (hf a).at w
      rest (err e) w = SameConsent-refl w

module _ {W : Type 0} (p : Platform) (h : Host W) (laws : HostLaws h) where
  now_utc-Leaves : Leaves h (now_utc p h)
  now_utc-Leaves = record { at = laws.now-consent }

  new_id-Leaves : (prefix : String) → Leaves h (new_id p h prefix)
  new_id-Leaves prefix = record { at = laws.token-consent }

  write_audit-Leaves : (s : String) → Leaves h (h.write_audit s)
  write_audit-Leaves s = record { at = laws.write_audit-consent s }

  append_event-Leaves : (event : Fields) → Leaves h (append_event p h event)
  unfolding append_event
  append_event-Leaves event =
      search (Leaves-pure, Leaves-reads, Leaves-bind, write_audit-Leaves) depth 12

  pub write_audit_event-Leaves : (a : EventArgs) → Leaves h (write_audit_event p h a)
  unfolding write_audit_event
  write_audit_event-Leaves a =
      search (Leaves-pure, Leaves-bind, now_utc-Leaves, append_event-Leaves) depth 9

  pub begin_audit_operation-Leaves : (a : OperationArgs) → Leaves h (begin_audit_operation p h a)
  unfolding begin_audit_operation
  begin_audit_operation-Leaves a =
      search (Leaves-pure, Leaves-bind, new_id-Leaves, write_audit_event-Leaves) depth 9
