-- ===== src/Audit/Append.antt =====
-- What one audit event does to the log.
use mathlib.Core.Path.{ap₂}
use agent_personal_vault.Prelude.{true, ◌+◌, String, ◌≡◌, ◌∙◌, sym, ap, false, ltb, arith}
use agent_personal_vault.Result.{ok, err, ok_inj, raise_if-eq_ok}
use agent_personal_vault.Exec.{Returns, continue-Returns, Returns-last, Returns-at}
use agent_personal_vault.Python.Text.{◌^^◌, utf8_size}
use agent_personal_vault.Python.Json.{Fields}
use agent_personal_vault.Limits.{max_audit_bytes}
use agent_personal_vault.Platform.{Platform, whole_second}
use agent_personal_vault.Host.{Host, HostLaws, SameAudit}
use agent_personal_vault.Audit.{
  EventArgs, build_event, existing_log, append_event, write_audit_event,
}

utf8_size-append : (s t : String) → utf8_size (s ^^ t) ≡ utf8_size s + utf8_size t
unfolding utf8_size
utf8_size-append String.[] t = omega arith
utf8_size-append (String.◌∷◌ c s) t = omega (arith, utf8_size-append s t)

module _ {W : Type 0} (p : Platform) (h : Host W) where
  existing_log-SameAudit : {w w' : W} → SameAudit h w w' → existing_log p h w' ≡ existing_log p h w
  unfolding existing_log
  existing_log-SameAudit s =
      ap₂ (λ o text. elim o [ ok true ↦ text | ok false ↦ ok "" | err e ↦ err e ]) s.exists
        s.content

  -- The text of the event and a newline stand behind the log that was there, and the log keeps its
  -- bound.
  pub record Appended (a : EventArgs) (w : W) (event : Fields) (w' : W) : Type 0 where
    pub existing : String
    pub before : existing_log p h w ≡ ok existing
    pub built : build_event p h a (whole_second (h.now w).0) ≡ ok event
    pub after : h.read_audit w' ≡ ok (existing ^^ (p.dumps_line event ^^ "\n"))
    pub bounded : ltb max_audit_bytes (utf8_size (existing ^^ (p.dumps_line event ^^ "\n"))) ≡ false

  abbrev AppendedLine : Fields → W → Unit {0} → W → Type 0
  AppendedLine event w _ w' =
      (existing : String) × (existing_log p h w ≡ ok existing)
      × (h.read_audit w' ≡ ok (existing ^^ (p.dumps_line event ^^ "\n")))
      × (ltb max_audit_bytes (utf8_size (existing ^^ (p.dumps_line event ^^ "\n"))) ≡ false)

  append_event-Appended :
      HostLaws h
      → (event : Fields) (w : W) → Returns (AppendedLine event w) (append_event p h event w)
  unfolding append_event
  append_event-Appended laws event w = continue-Returns _ _ _ λ _ _.
      continue-Returns _ _ _ λ existing e. continue-Returns _ _ _ λ _ small.
        Returns-last _ λ _ written. (
          existing,
          e,
          (laws.audit_written (existing ^^ (p.dumps_line event ^^ "\n")) w written).1,
          ap (ltb max_audit_bytes) (utf8_size-append existing (p.dumps_line event ^^ "\n"))
              ∙ raise_if-eq_ok _ _ small,
        )

  -- An event that was recorded is the one that its arguments and the clock describe; its text and a
  -- newline stand behind everything that was in the log before, and the log is within its limit.
  pub write_audit_event-Appended :
      HostLaws h
      → (a : EventArgs) (w w' : W) (event : Fields) → write_audit_event p h a w ≡ (ok event, w')
      → Appended a w event w'
  unfolding write_audit_event
  write_audit_event-Appended laws a w w' event e = Returns-at step e
    where
      step : Returns (Appended a w) (write_audit_event p h a w)
      step = continue-Returns _ _ _ λ timestamp t. continue-Returns _ _ _ λ event built.
          continue-Returns _ _ _ λ _ appended.
            let (existing, before, after, bounded) =
              Returns-at (append_event-Appended laws event (h.now w).1)
                (ap (λ r. (r, (append_event p h event (h.now w).1).1)) appended) in
            record {
              post = record {
                existing = existing;
                before = sym (existing_log-SameAudit (laws.now-audit w)) ∙ before;
                built = ap (build_event p h a) (ok_inj t) ∙ built;
                after = after;
                bounded = bounded;
              };
            }
