-- ===== src/Audit/Sweep.antt =====
-- The loop of `prune_audit_events` in agent_personal_vault/audit.py over the lines of the log.
use agent_personal_vault.Prelude.{
  ℕ, suc, String, Bool, true, false, not, ◌&&◌, Option, none, some, List, [], ◌∷◌, ◌==◌, ltb,
  if◌then◌else◌,
}
use agent_personal_vault.Result.{
  Error, Result, ok, err, key_error, type_error, is_value_error, ◌>>=◌,
}
use agent_personal_vault.Python.Text.{◌^^◌}
use agent_personal_vault.Python.Json.{Json, str, obj, Fields, get, get_or_null, has, put}
use agent_personal_vault.Platform.{Platform, Moment, to_text}
use agent_personal_vault.Audit.{redact_value}
use agent_personal_vault.Audit.Log.{Loaded, loaded, malformed, raised, strip_bytes}

-- `except (UnicodeDecodeError, json.JSONDecodeError, KeyError, TypeError, ValueError)`
abbrev pub is_caught : Error → Bool
is_caught (key_error _) = true
is_caught type_error = true
is_caught e = is_value_error e

-- What one line comes to: it is kept as it is for want of a time, is dropped, or is kept.
pub data Verdict : Type 0 where
  unreadable : Verdict
  old : Verdict
  kept : String → Verdict

-- The lists and counts of the loop.
pub record Swept : Type 0 where
  pub lines : List String
  pub removed : ℕ
  pub malformed_retained : ℕ

abbrev pub add_verdict : String → Verdict → Swept → Swept
add_verdict raw_line unreadable s = record s {
  lines = raw_line ∷ s.lines;
  malformed_retained = suc s.malformed_retained;
}
add_verdict raw_line old s = record s { removed = suc s.removed }
add_verdict raw_line (kept l) s = record s { lines = l ∷ s.lines }

unfoldable pub concat : List String → String
concat [] = ""
concat (l ∷ ls) = l ^^ concat ls

module _ (p : Platform) where
  -- `datetime.fromisoformat(str(payload["timestamp"]))`, if it has a timezone
  abbrev pub aware_instant : Option Moment → Option ℕ
  aware_instant none = none
  aware_instant (some m) = if m.aware then some m.instant else none

  abbrev pub timestamp_of : Option Json → Option ℕ
  timestamp_of none = none
  timestamp_of (some v) = aware_instant (p.fromisoformat (to_text p v))

  -- The line that stays for an event: a purpose in clear is replaced.
  abbrev pub kept_line : String → Fields → String
  kept_line raw_line d =
      let sanitized = redact_value p (get_or_null "purpose" d) in
      if has "purpose" d && not (is_text sanitized (get_or_null "purpose" d))
      then p.dumps_line (put "purpose" (str sanitized) d) ^^ "\n"
      else raw_line
    where
      is_text : String → Json → Bool
      is_text t (str s) = s == t
      is_text t _ = false

  abbrev pub event_verdict : ℕ → String → Fields → Option ℕ → Verdict
  event_verdict cutoff raw_line d none = unreadable
  event_verdict cutoff raw_line d (some t) =
      if ltb t cutoff then old else kept (kept_line raw_line d)

  -- One round of the loop.
  abbrev pub verdict : ℕ → String → Loaded → Result Verdict
  verdict cutoff raw_line (loaded (obj d)) =
      ok (event_verdict cutoff raw_line d (timestamp_of (get "timestamp" d)))
  verdict cutoff raw_line (loaded _) = ok unreadable
  verdict cutoff raw_line malformed = ok unreadable
  verdict cutoff raw_line (raised e) = if is_caught e then ok unreadable else err e

module _ (p : Platform) (loads : String → Loaded) where
  unfoldable pub sweep : ℕ → List String → Result Swept
  unfolding strip_bytes
  sweep cutoff [] = ok (record { lines = []; removed = 0; malformed_retained = 0 })
  sweep cutoff (l ∷ ls) = do
    v ← verdict p cutoff l (loads (strip_bytes l))
    rest ← sweep cutoff ls
    ok (add_verdict l v rest)
