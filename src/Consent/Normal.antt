-- ===== src/Consent/Normal.antt =====
-- The stored form of a list of grants that hold no token id: each grant keeps all but its purpose,
-- and the list its order.
use agent_personal_vault.Prelude.{
  String, ◌≡◌, ◌∙◌, refl, ap, Bool, false, Option, none, some, List, [], ◌∷◌, ◌++◌, All, ◌==◌,
}
use mathlib.Core.Path.{ap₂}
use agent_personal_vault.Result.{Result, ok, Gives, >>=-Gives, Gives-at, ◌>>=◌, ◌>>◌}
use agent_personal_vault.Python.Json.{Json, null, str, obj, Fields, get, put, get-put}
use agent_personal_vault.Platform.{Platform}
use agent_personal_vault.Audit.{redact_value}
use agent_personal_vault.Consent.Record.{validate_stored_purpose}
use agent_personal_vault.Consent.State.{normalize_purpose_field, normalize_grant, normalize_records}
use agent_personal_vault.Consent.Find.{match_token, is_grant_of}
use agent_personal_vault.Consent.FindLaws.{IsOther}

-- A grant that is kept by its digest alone.
abbrev pub HasNoId : Json → Type 0
HasNoId (obj r) = get "id" r ≡ none
HasNoId _ = Unit

abbrev pub IsNoDict : Json → Type 0
IsNoDict (obj _) = ⊥
IsNoDict _ = Unit

-- The same record, but for its purpose.
abbrev pub SameBut : Fields → Fields → Type 0
SameBut r r' = (key : String) → ("purpose" == key) ≡ false → get key r' ≡ get key r

-- The test of the search on the two entries that it reads.
abbrev match_parts : String → String → Option Json → Option Json → Result Bool
match_parts consent_id digest stored id =
    match_token (elim id [ some (str s) ↦ s == consent_id | _ ↦ false ]) digest
      (elim stored [ none ↦ null | some v ↦ v ])

module _ (p : Platform) where
  SameBut-purpose : (v : Json) (r : Fields) → SameBut r (put "purpose" v r)
  SameBut-purpose v r key other = rw (get-put "purpose" key v r, other) refl

  normalize_purpose_field-SameBut : (r : Fields) → Gives (SameBut r) (normalize_purpose_field p r)
  normalize_purpose_field-SameBut r = split (get "purpose" r)
    where
      split :
          (o : Option Json)
          → Gives (SameBut r) (elim o [
            | none ↦ ok r
            | some v ↦ validate_stored_purpose p v >> ok (put "purpose" (str (redact_value p v)) r)
          ])
      split none = record { post = λ key _. refl }
      split (some v) = >>=-Gives _ _ λ _ _. record { post = SameBut-purpose _ r }

  -- Behind the purpose nothing changes in a grant that has no id.
  pub normalize_grant-SameBut :
      (r : Fields) → get "id" r ≡ none → Gives (SameBut r) (normalize_grant p r)
  unfolding normalize_grant
  normalize_grant-SameBut r no_id = >>=-Gives _ _ λ r' e.
      let same = Gives-at (normalize_purpose_field-SameBut r) e in
      rw (same "id" refl ∙ no_id) (record { post = same })

  -- The search reads two entries of a grant.
  pub is_grant_of-eq :
      (consent_id digest : String) (r r' : Fields)
      → get "token_digest" r' ≡ get "token_digest" r
      → get "id" r' ≡ get "id" r
      → is_grant_of consent_id digest r' ≡ is_grant_of consent_id digest r
  unfolding is_grant_of
  is_grant_of-eq consent_id digest r r' same_digest same_id =
      ap₂ (match_parts consent_id digest) same_digest same_id

  normalize_records-dict :
      (q q' : Fields) (js js' : List Json)
      → normalize_grant p q ≡ ok q'
      → normalize_records p (normalize_grant p) js ≡ ok js'
      → normalize_records p (normalize_grant p) (obj q ∷ js) ≡ ok (obj q' ∷ js')
  unfolding normalize_records ◌>>=◌
  normalize_records-dict q q' js js' e e' = rw (e, e') refl

  normalize_records-skip :
      (j : Json) (js js' : List Json)
      → IsNoDict j
      → normalize_records p (normalize_grant p) js ≡ ok js'
      → normalize_records p (normalize_grant p) (j ∷ js) ≡ ok (j ∷ js')
  unfolding normalize_records ◌>>=◌
  normalize_records-skip (obj r) js js' no_dict e = absurd no_dict
  normalize_records-skip j js js' no_dict e = rw e refl

  -- The stored form of a list that is split at one of its grants.
  pub record StoredSplit (before : List Json) (r : Fields) (after : List Json) (stored : List Json)
      : Type 0 where
    pub before' : List Json
    pub r' : Fields
    pub after' : List Json
    pub whole : stored ≡ before' ++ (obj r' ∷ after')
    pub before_stored : normalize_records p (normalize_grant p) before ≡ ok before'
    pub r_stored : normalize_grant p r ≡ ok r'

  StoredSplit-behind :
      (j j' : Json) (before : List Json) (r : Fields) (after stored : List Json)
      → StoredSplit before r after stored
      → ((js : List Json)
          → normalize_records p (normalize_grant p) before ≡ ok js
          → normalize_records p (normalize_grant p) (j ∷ before) ≡ ok (j' ∷ js))
      → StoredSplit (j ∷ before) r after (j' ∷ stored)
  StoredSplit-behind j j' before r after stored s head = record {
    before' = j' ∷ s.before';
    r' = s.r';
    after' = s.after';
    whole = ap (λ t. j' ∷ t) s.whole;
    before_stored = head s.before' s.before_stored;
    r_stored = s.r_stored;
  }

  pub normalize_records-StoredSplit :
      (before : List Json) (r : Fields) (after : List Json)
      → Gives
          (StoredSplit before r after)
          (normalize_records p (normalize_grant p) (before ++ (obj r ∷ after)))
  unfolding normalize_records
  normalize_records-StoredSplit [] r after = >>=-Gives _ _ λ r' e. >>=-Gives _ _ λ after' e'.
      record {
        post = record {
          before' = [];
          r' = r';
          after' = after';
          whole = refl;
          before_stored = refl;
          r_stored = e;
        };
      }
  normalize_records-StoredSplit (obj q ∷ before) r after = >>=-Gives _ _ λ q' e.
      >>=-Gives _ _ λ js e'. record {
        post =
            StoredSplit-behind (obj q) (obj q') before r after js
              (Gives-at (normalize_records-StoredSplit before r after) e')
              (λ t. normalize_records-dict q q' before t e);
      }
  normalize_records-StoredSplit (j ∷ before) r after = >>=-Gives _ _ λ js e'. record {
    post =
        StoredSplit-behind j j before r after js
          (Gives-at (normalize_records-StoredSplit before r after) e')
          (λ t. normalize_records-skip j before t tt);
  }

  -- What the search passes over, it passes over in the stored form too.
  pub normalize_records-IsOther :
      (consent_id digest : String) (js : List Json)
      → All HasNoId js
      → All (IsOther consent_id digest) js
      → Gives (All (IsOther consent_id digest)) (normalize_records p (normalize_grant p) js)
  unfolding normalize_records
  normalize_records-IsOther consent_id digest [] no_ids others = record { post = tt }
  normalize_records-IsOther consent_id digest (obj r ∷ js) no_ids others = >>=-Gives _ _ λ r' e.
      >>=-Gives _ _ λ js' e'.
        let same = Gives-at (normalize_grant-SameBut r no_ids.0) e in
        record {
          post = (
            is_grant_of-eq consent_id digest r r' (same "token_digest" refl) (same "id" refl)
                ∙ others.0,
            Gives-at (normalize_records-IsOther consent_id digest js no_ids.1 others.1) e',
          );
        }
  normalize_records-IsOther consent_id digest (j ∷ js) no_ids others = >>=-Gives _ _ λ js' e'.
      record {
        post = (tt, Gives-at (normalize_records-IsOther consent_id digest js no_ids.1 others.1) e');
      }
