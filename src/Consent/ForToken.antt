-- ===== src/Consent/ForToken.antt =====
-- Which grant of a list belongs to a token, without the loop of `prepare_consent_consumption` in
-- agent_personal_vault/consent.py: by the stored digest, and by the id only if no digest is stored.
use mathlib.Core.Bool.{false≢true}
use agent_personal_vault.Prelude.{
  String, ◌≡◌, ◌≢◌, ◌∙◌, refl, sym, ap, ◌⊎◌, inl, inr, Bool, true, false, Option, some, List, [],
  ◌∷◌, ◌++◌, All, ◌==◌, eq_iff, eq_refl, if◌then◌else◌,
}
use agent_personal_vault.Result.{Error, ok, err, ok_inj}
use agent_personal_vault.Python.Json.{Json, null, str, obj, Fields, get, get_or_null}
use agent_personal_vault.Consent.Record.{is_digest, validate_token_digest}
use agent_personal_vault.Consent.Find.{Found, match_token, is_grant_of, find_grant}
use agent_personal_vault.Consent.FindLaws.{IsOther, find_grant-SplitAt}

-- The grant stores the digest, or it stores none and has the id.
abbrev pub IsForToken : String → String → Fields → Type 0
IsForToken consent_id digest r =
    (get_or_null "token_digest" r ≡ str digest)
    ⊎ ((get_or_null "token_digest" r ≡ null) × (get "id" r ≡ some (str consent_id)))

abbrev pub IsNotForToken : String → String → Json → Type 0
IsNotForToken consent_id digest (obj r) = ¬ IsForToken consent_id digest r
IsNotForToken consent_id digest _ = Unit

-- The list is split at its first grant of the token.
pub record FirstForToken (consent_id digest : String) (grants : List Json) (f : Found)
    : Type 0 where
  pub whole : grants ≡ f.before ++ (obj f.record_found ∷ f.after)
  pub belongs : IsForToken consent_id digest f.record_found
  pub others : All (IsNotForToken consent_id digest) f.before

module _ (consent_id digest : String) where
  has_text-some :
      (o : Option Json)
      → elim o [ some (str s) ↦ s == consent_id | _ ↦ false ] ≡ true
      → o ≡ some (str consent_id)
  has_text-some (some (str s)) e = ap (λ t. some (str t)) ((eq_iff s consent_id).0 e)
  has_text-some _ e = absurd (cc)

  -- A test on the stored digest that ended compared it.
  compared :
      (valid b : Bool) (s : String) (e : Error)
      → elim (if valid then ok s else err e) [ ok stored ↦ ok (stored == digest) | err e ↦ err e ]
        ≡ ok b
      → (s == digest) ≡ b
  compared true b s e h = ok_inj h
  compared false b s e h = absurd (cc)

  match_token-matches :
      (by_id : Bool) (v : Json)
      → match_token by_id digest v ≡ ok true
      → (v ≡ str digest) ⊎ ((v ≡ null) × (by_id ≡ true))
  unfolding match_token validate_token_digest
  match_token-matches by_id null e = inr (refl, ok_inj e)
  match_token-matches by_id (str s) e =
      inl (ap str ((eq_iff s digest).0 (compared (is_digest s) true s _ e)))
  match_token-matches by_id v e = absurd (cc)

  match_token-differs :
      (by_id : Bool) (v : Json)
      → match_token by_id digest v ≡ ok false
      → (v ≢ str digest) × (v ≡ null → by_id ≡ false)
  unfolding match_token validate_token_digest
  match_token-differs by_id null e = (λ same. absurd (cc), λ _. ok_inj e)
  match_token-differs by_id (str s) e = (
    λ same.
        let eq : s ≡ digest = cc in
        false≢true (sym (compared (is_digest s) false s _ e) ∙ (eq_iff s digest).1 eq),
    λ same. absurd (cc),
  )
  match_token-differs by_id v e = (λ same. absurd (cc), λ same. absurd (cc))

  is_grant_of-IsForToken :
      (r : Fields) → is_grant_of consent_id digest r ≡ ok true → IsForToken consent_id digest r
  unfolding is_grant_of
  is_grant_of-IsForToken r e = elim (match_token-matches _ _ e) [
    | inl same ↦ inl same
    | inr (missing, by_id) ↦ inr (missing, has_text-some (get "id" r) by_id)
  ]

  IsOther-IsNotForToken :
      (j : Json) → IsOther consent_id digest j → IsNotForToken consent_id digest j
  unfolding is_grant_of
  IsOther-IsNotForToken (obj r) e = λ for_token.
      let (other, by_id) = match_token-differs _ _ e in
      elim for_token [
        | inl same ↦ other same
        | inr (missing, has_id) ↦ false≢true (
            sym (by_id missing)
            ∙ ap (λ o. elim o [ some (str s) ↦ s == consent_id | _ ↦ false ]) has_id
            ∙ eq_refl consent_id)
      ]
  IsOther-IsNotForToken j e = tt

  IsOther-each :
      (js : List Json)
      → All (IsOther consent_id digest) js
      → All (IsNotForToken consent_id digest) js
  IsOther-each [] others = tt
  IsOther-each (j ∷ js) others = (IsOther-IsNotForToken j others.0, IsOther-each js others.1)

  pub find_grant-FirstForToken :
      (grants : List Json) (f : Found)
      → find_grant consent_id digest grants ≡ ok (some f)
      → FirstForToken consent_id digest grants f
  find_grant-FirstForToken grants f e =
      let at = find_grant-SplitAt consent_id digest grants e in
      record {
        whole = at.whole;
        belongs = is_grant_of-IsForToken f.record_found at.matches;
        others = IsOther-each f.before at.others;
      }
