-- ===== src/Consent/Redaction.antt =====
-- What is written to the consent file holds no token and no purpose in clear.
use agent_personal_vault.Prelude.{◌≡◌, refl, Option, none, some, List, [], ◌∷◌, All}
use agent_personal_vault.Result.{ok, Gives, Gives-at, >>=-Gives, ◌>>=◌, ◌>>◌}
use agent_personal_vault.Python.Json.{Json, str, obj, Fields, get, put, remove, get-put, get-remove}
use agent_personal_vault.Platform.{Platform}
use agent_personal_vault.Host.{Host, HostLaws}
use agent_personal_vault.Audit.Display.{IsDisplayed, redact_value-IsDisplayed}
use agent_personal_vault.Audit.{redact_value}
use agent_personal_vault.Consent.Record.{validate_stored_purpose, token_digest}
use agent_personal_vault.Consent.State.{normalize_grant, normalize_records, normalize_purpose_field}
use agent_personal_vault.Consent.Grant.{write_state}
use agent_personal_vault.Consent.Stored.{HasGrants, normalize_state-StoredGrants}
use agent_personal_vault.Consent.Inversion.{write_state-Holds}

-- A stored grant: no token id, and a displayed purpose.
abbrev pub IsRedacted : Json → Type 0
IsRedacted (obj r) = (get "id" r ≡ none) × IsDisplayed (get "purpose" r)
IsRedacted _ = Unit

module _ (p : Platform) where
  normalize_purpose_field-IsDisplayed :
      (r : Fields) → Gives (λ r'. IsDisplayed (get "purpose" r')) (normalize_purpose_field p r)
  normalize_purpose_field-IsDisplayed r = split (get "purpose" r) refl
    where
      split :
          (o : Option Json)
          → get "purpose" r ≡ o
          → Gives
              (λ r'. IsDisplayed (get "purpose" r'))
              (elim o [
                | none ↦ ok r
                | some v ↦
                    validate_stored_purpose p v >> ok (put "purpose" (str (redact_value p v)) r)
              ])
      split none e = record { post = rw e tt }
      split (some v) e = >>=-Gives _ _ λ _ _. record {
        post =
            rw (get-put "purpose" "purpose" (str (redact_value p v)) r)
              (redact_value-IsDisplayed p v);
      }

  normalize_grant-IsRedacted :
      (r : Fields) → Gives (λ r'. IsRedacted (obj r')) (normalize_grant p r)
  unfolding normalize_grant
  normalize_grant-IsRedacted r =
      >>=-Gives _ _
        λ r' e. split r' (Gives-at (normalize_purpose_field-IsDisplayed r) e) (get "id" r') refl
    where
      split :
          (r' : Fields)
          → IsDisplayed (get "purpose" r')
          → (o : Option Json) → get "id" r' ≡ o
          → Gives
              (λ q. IsRedacted (obj q))
              (elim o [
                | none ↦ ok r'
                | some id ↦ token_digest p id >>= λ digest.
                    ok (put "token_digest" (str digest) (remove "id" r'))
              ])
      split r' shown none e = record { post = (e, shown) }
      split r' shown (some id) e = >>=-Gives _ _ λ digest _. record {
        post = (
          rw (get-put "token_digest" "id" (str digest) (remove "id" r'), get-remove "id" "id" r')
              refl,
          rw
              (
                get-put "token_digest" "purpose" (str digest) (remove "id" r'),
                get-remove "id" "purpose" r',
              )
              shown,
        );
      }

  normalize_records-IsRedacted :
      (js : List Json) → Gives (All IsRedacted) (normalize_records p (normalize_grant p) js)
  unfolding normalize_records
  normalize_records-IsRedacted [] = record { post = tt }
  normalize_records-IsRedacted (obj r ∷ js) = >>=-Gives _ _ λ r' e. >>=-Gives _ _ λ js' e'. record {
    post =
        (Gives-at (normalize_grant-IsRedacted r) e, Gives-at (normalize_records-IsRedacted js) e');
  }
  normalize_records-IsRedacted (j ∷ js) =
      >>=-Gives _ _ λ js' e'. record { post = (tt, Gives-at (normalize_records-IsRedacted js) e') }

  -- When the state that a `_write_state` is given has the grants `gs`, and it returns, then the file
  -- holds grants, none of which has a token id or a purpose but a display code.
  pub write_state-IsRedacted :
      {W : Type 0} (h : Host W) (laws : HostLaws h) (gs : List Json) (state : Fields) (w : W)
      → HasGrants gs state
      → (write_state p h state w).0 ≡ ok tt
      → (stored : Fields) × (js : List Json) × (h.read_consent (write_state p h state w).1
          ≡ ok (obj stored))
        × HasGrants js stored
        × All IsRedacted js
  write_state-IsRedacted h laws gs state w has_grants wrote =
      let held = write_state-Holds p h laws state w wrote in
      let (js, normal, has_js) =
        Gives-at (normalize_state-StoredGrants p gs state has_grants) held.normalizes in
      (held.stored, js, held.content, has_js, Gives-at (normalize_records-IsRedacted gs) normal)
