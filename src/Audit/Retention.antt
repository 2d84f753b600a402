-- ===== src/Audit/Retention.antt =====
-- `prune_audit_events` of agent_personal_vault/audit.py, as one step under the lock.
use agent_personal_vault.Prelude.{ℕ, String, true, Option, none, some, leb, length, if◌then◌else◌}
use agent_personal_vault.Result.{Result, ok, err, value_error, require}
use agent_personal_vault.Exec.{Exec, pure, lift, reads, ◌>>=◌, ◌>>◌}
use agent_personal_vault.Python.Json.{pos, Json, int}
use agent_personal_vault.Platform.{Platform, Moment, sub_days}
use agent_personal_vault.Host.{Host}
use agent_personal_vault.Audit.{now_utc}
use agent_personal_vault.Audit.Sweep.{sweep, concat}
use agent_personal_vault.Audit.Log.{Loaded, split_lines}

-- `type(retention_days) is not int or retention_days < 1`
unfoldable pub validate_audit_days : Json → Result ℕ
validate_audit_days (int (pos n)) =
    if leb 1 n then ok n else err (value_error "audit retention days must be a positive integer")
validate_audit_days _ = err (value_error "audit retention days must be a positive integer")

-- The counts that are returned.
pub record Counted : Type 0 where
  pub removed : ℕ
  pub retained : ℕ
  pub malformed_retained : ℕ

module _ {W : Type 0} (p : Platform) (h : Host W) where
  -- `now or datetime.now(timezone.utc).replace(microsecond=0)`
  abbrev pub time_or_now : Option Moment → Exec W Moment
  time_or_now none = do t ← now_utc p h; pure (record { instant = t; aware = true })
  time_or_now (some m) = pure m

module _ {W : Type 0} (p : Platform) (loads : String → Loaded) (h : Host W) where
  -- The part behind the test that the log is there.
  unfoldable pub prune_log : ℕ → Exec W Counted
  unfolding sweep split_lines concat
  prune_log cutoff = do
    text ← reads h.read_audit
    swept ← lift (sweep p loads cutoff (split_lines text))
    h.write_audit (concat swept.lines)
    pure (record {
      removed = swept.removed;
      retained = length swept.lines;
      malformed_retained = swept.malformed_retained;
    })

  unfoldable pub prune_audit_events : Json → Option Moment → Exec W Counted
  unfolding validate_audit_days prune_log
  prune_audit_events retention_days now = do
    days ← lift (validate_audit_days retention_days)
    current ← time_or_now p h now
    lift (require current.aware (value_error "audit pruning time must include a timezone"))
    cutoff ← lift (sub_days current.instant days)
    reads h.write_guard
    exists ← reads h.audit_exists
    if exists
        then prune_log cutoff
        else pure (record { removed = 0; retained = 0; malformed_retained = 0 })
