-- ===== src/Host.antt =====
-- What the consent and audit modules use of the storage below them, for one vault path and the
-- passphrase in force, and of the clock and the random source. `sidecar_store.py` and
-- `migration_guard.py` provide the storage.
use agent_personal_vault.Prelude.{ℕ, String, ◌≡◌, Bool, true, nat_eq, ◌&&◌}
use agent_personal_vault.Result.{Result, ok}
use agent_personal_vault.Exec.{Exec}
use agent_personal_vault.Python.Text.{size, all_chars, is_urlsafe}
use agent_personal_vault.Python.Json.{Json}

pub record Host (W : Type 0) : Type 0 where
  -- `kdf_write_guard`: raises while a migration is incomplete
  pub write_guard : W → Result (Unit {0})
  -- `private_file_exists`, `read_sidecar_json` and `write_sidecar_json` for the consent file
  pub consent_exists : W → Result Bool
  pub read_consent : W → Result Json
  pub write_consent : Json → Exec W (Unit {0})
  -- the same for the audit log, whose bytes are a text
  pub audit_exists : W → Result Bool
  pub read_audit : W → Result String
  pub write_audit : String → Exec W (Unit {0})
  -- `datetime.now(timezone.utc)`
  pub now : W → ℕ × W
  -- `secrets.token_urlsafe(18)`
  pub token : W → String × W

-- The consent file reads the same.
pub record SameConsent {W : Type 0} (h : Host W) (w w' : W) : Type 0 where
  pub exists : h.consent_exists w' ≡ h.consent_exists w
  pub content : h.read_consent w' ≡ h.read_consent w

-- The audit log reads the same.
pub record SameAudit {W : Type 0} (h : Host W) (w w' : W) : Type 0 where
  pub exists : h.audit_exists w' ≡ h.audit_exists w
  pub content : h.read_audit w' ≡ h.read_audit w

-- A write that returns is read back, and each part of the storage leaves the other parts alone. Of a
-- write that raises nothing is assumed.
pub record HostLaws {W : Type 0} (h : Host W) : Type 0 where
  pub consent_written :
      (j : Json) (w : W)
      → (h.write_consent j w).0 ≡ ok tt
      → (h.consent_exists (h.write_consent j w).1 ≡ ok true)
        × (h.read_consent (h.write_consent j w).1 ≡ ok j)
  pub audit_written :
      (s : String) (w : W)
      → (h.write_audit s w).0 ≡ ok tt
      → (h.audit_exists (h.write_audit s w).1 ≡ ok true)
        × (h.read_audit (h.write_audit s w).1 ≡ ok s)
  pub write_consent-audit : (j : Json) (w : W) → SameAudit h w (h.write_consent j w).1
  pub write_audit-consent : (s : String) (w : W) → SameConsent h w (h.write_audit s w).1
  pub now-consent : (w : W) → SameConsent h w (h.now w).1
  pub now-audit : (w : W) → SameAudit h w (h.now w).1
  pub token-consent : (w : W) → SameConsent h w (h.token w).1
  pub token-audit : (w : W) → SameAudit h w (h.token w).1
  -- 18 bytes are 24 characters of URL-safe base64
  pub token_form :
      (w : W) → (all_chars is_urlsafe (h.token w).0 && nat_eq (size (h.token w).0) 24) ≡ true
