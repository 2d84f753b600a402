-- ===== src/Consent/Inversion.antt =====
-- What a call of `prepare_consent_consumption` that returns has gone through.
use agent_personal_vault.Prelude.{ℕ, String, ◌≡◌, ◌∙◌, refl, true, false, leb}
use agent_personal_vault.Result.{Result, ok, err, raise_if-eq_ok}
use agent_personal_vault.Exec.{continue, Returns, continue-Returns}
use agent_personal_vault.Python.Json.{str, obj, Fields, put}
use agent_personal_vault.Platform.{Platform, whole_second}
use agent_personal_vault.Host.{Host, HostLaws, SameConsent}
use agent_personal_vault.Audit.Operation.{committed}
use agent_personal_vault.Audit.Frame.{write_audit_event-Leaves}
use agent_personal_vault.Consent.Record.{public_record}
use agent_personal_vault.Consent.State.{normalize_state}
use agent_personal_vault.Consent.Grant.{write_state}
use agent_personal_vault.Consent.Use.{Selection, select_grant}
use agent_personal_vault.Consent.Consume.{with_grant, prepare_consent_consumption}

-- The consent file holds the stored form of `state`.
pub record Holds {W : Type 0} (p : Platform) (h : Host W) (state : Fields) (w : W) : Type 0 where
  pub stored : Fields
  pub normalizes : normalize_state p state ≡ ok stored
  pub exists : h.consent_exists w ≡ ok true
  pub content : h.read_consent w ≡ ok (obj stored)

module _ {W : Type 0} {p : Platform} {h : Host W} where
  pub Holds-SameConsent :
      {state : Fields} {w w' : W} → Holds p h state w → SameConsent h w w' → Holds p h state w'
  Holds-SameConsent a same = record {
    stored = a.stored;
    normalizes = a.normalizes;
    exists = same.exists ∙ a.exists;
    content = same.content ∙ a.content;
  }

-- The grant that was selected, marked as used.
abbrev pub spent : Platform → Selection → ℕ → Fields
spent p s used_at = put "used_at" (str (p.isoformat used_at)) s.found.record_found

module _ {W : Type 0} (p : Platform) (h : Host W) (laws : HostLaws h) where
  -- A `_write_state` that returns leaves the stored form of the state behind.
  pub write_state-Holds :
      (state : Fields) (w : W) {u : Unit {0}}
      → (write_state p h state w).0 ≡ ok u
      → Holds p h state (write_state p h state w).1
  unfolding write_state continue
  write_state-Holds state w {u} e = split (normalize_state p state) refl e
    where
      split :
          (r : Result Fields)
          → normalize_state p state ≡ r
          → (continue r w (λ stored. h.write_consent (obj stored))).0 ≡ ok u
          → Holds p h state (continue r w (λ stored. h.write_consent (obj stored))).1
      split (ok stored) n k =
          let written = laws.consent_written (obj stored) w k in
          record { stored = stored; normalizes = n; exists = written.0; content = written.1 }
      split (err x) n k = absurd (cc)

  -- A token was consumed between `w` and `w'`.
  pub record Consumed (consent_id action key purpose : String) (result : Fields) (w w' : W)
      : Type 0 where
    pub selected : Selection
    pub selects : select_grant p h consent_id action key purpose w ≡ ok selected
    pub in_time : leb selected.expires_at (whole_second (h.now w).0) ≡ false
    pub used_at : ℕ
    pub holds : Holds p h (with_grant selected (spent p selected used_at)) w'
    pub shows : result ≡ public_record p (spent p selected used_at)

  pub consumption-Returns :
      (consent_id action key purpose actor : String) (w : W)
      → Returns
          (λ r w'. Consumed consent_id action key purpose r.0 w w')
          (prepare_consent_consumption p h consent_id action key purpose actor w)
  unfolding prepare_consent_consumption committed
  consumption-Returns consent_id action key purpose actor w =
      continue-Returns _ _ _ λ selected selects. continue-Returns _ _ _ λ now read.
        continue-Returns _ _ _ λ _ timely. continue-Returns _ _ _ λ operation _.
          continue-Returns _ _ _ λ used_at _. continue-Returns _ _ _ λ _ wrote.
            continue-Returns _ _ _ λ _ _. record {
              post = record {
                selected = selected;
                selects = selects;
                in_time = cc (raise_if-eq_ok (leb selected.expires_at now) _ timely, read);
                used_at = used_at;
                holds =
                    Holds-SameConsent (write_state-Holds _ _ wrote)
                      ((write_audit_event-Leaves p h laws _).at _);
                shows = refl;
              };
            }
