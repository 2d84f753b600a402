-- ===== src/Consent/Retention.antt =====
-- `prune_consent_records` of agent_personal_vault/consent.py, as one step under the lock.
use agent_personal_vault.Prelude.{ℕ, ◌+◌, ◌-◌, Option, leb, length, if◌then◌else◌}
use agent_personal_vault.Result.{Result, ok, err, consent_error, require}
use agent_personal_vault.Exec.{Exec, pure, lift, reads, ◌>>=◌, ◌>>◌}
use agent_personal_vault.Python.Json.{pos, Json, int, arr, of_list, get_or_null, put}
use agent_personal_vault.Platform.{Platform, Moment, sub_days}
use agent_personal_vault.Host.{Host}
use agent_personal_vault.Audit.Retention.{time_or_now}
use agent_personal_vault.Consent.State.{require_list, load_state}
use agent_personal_vault.Consent.Grant.{write_state}
use agent_personal_vault.Consent.Prune.{grant_terminal_at, request_terminal_at, retain}

pub record Pruned : Type 0 where
  pub grants_removed : ℕ
  pub requests_removed : ℕ
  pub retained : ℕ

-- `type(retention_days) is not int or retention_days < 1`
unfoldable pub validate_retention_days : Json → Result ℕ
validate_retention_days (int (pos n)) =
    if leb 1 n
    then ok n
    else err (consent_error "consent retention days must be a positive integer")
validate_retention_days _ = err (consent_error "consent retention days must be a positive integer")

module _ {W : Type 0} (p : Platform) (h : Host W) where
  -- The part behind the test that the file is there.
  unfoldable pub prune_state : ℕ → ℕ → Exec W Pruned
  unfolding write_state
  prune_state current_time cutoff = do
    state ← reads (load_state p h)
    grants ← lift (require_list (get_or_null "grants" state))
    requests ← lift (require_list (get_or_null "requests" state))
    retained_grants ← lift (retain (grant_terminal_at p current_time) cutoff grants)
    retained_requests ← lift (retain (request_terminal_at p current_time) cutoff requests)
    write_state p h (
        put "requests" (arr (of_list retained_requests))
          (put "grants" (arr (of_list retained_grants)) state))
    pure (record {
      grants_removed = length grants - length retained_grants;
      requests_removed = length requests - length retained_requests;
      retained = length retained_grants + length retained_requests;
    })

  unfoldable pub prune_consent_records : Json → Option Moment → Exec W Pruned
  unfolding validate_retention_days prune_state
  prune_consent_records retention_days now = do
    days ← lift (validate_retention_days retention_days)
    current ← time_or_now p h now
    lift (require current.aware (consent_error "consent pruning time must include a timezone"))
    cutoff ← lift (sub_days current.instant days)
    reads h.write_guard
    exists ← reads h.consent_exists
    if exists
        then prune_state current.instant cutoff
        else pure (record { grants_removed = 0; requests_removed = 0; retained = 0 })
