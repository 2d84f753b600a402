-- ===== src/Consent/Conditions.antt =====
-- What a selected grant has passed.
use agent_personal_vault.Prelude.{
  ℕ, String, ◌≡◌, ◌∙◌, ap, true, false, Option, none, some, List, eq_iff,
}
use agent_personal_vault.Result.{
  ok, consent_error, Gives, Gives-last, >>=-Gives, Gives-at, raise_if-eq_ok, require-eq_ok,
}
use agent_personal_vault.Python.Json.{Json, str, Fields, get_or_null, truthy}
use agent_personal_vault.Platform.{Platform}
use agent_personal_vault.Host.{Host}
use agent_personal_vault.Consent.Record.{
  token_digest, purpose_binding, normalize_purpose, validate_purpose_binding, parse_expires_at,
}
use agent_personal_vault.Consent.State.{require_list, load_state}
use agent_personal_vault.Consent.Find.{Found, has_text, find_grant, or_raise}
use agent_personal_vault.Consent.Use.{Selection, find_token, select_grant, check_use}

-- An unused grant for exactly this action, key and purpose, which expires at `expires_at`.
pub record Permits (p : Platform) (action key binding : String) (grant : Fields) (expires_at : ℕ)
    : Type 0 where
  pub unused : truthy p.zero_float (get_or_null "used_at" grant) ≡ false
  pub for_action : has_text "action" action grant ≡ true
  pub for_key : has_text "key" key grant ≡ true
  pub for_purpose : validate_purpose_binding (get_or_null "purpose_binding" grant) ≡ ok binding
  pub expires : parse_expires_at p (get_or_null "expires_at" grant) ≡ ok expires_at

check_use-Permits :
    (p : Platform) (action key binding : String) (grant : Fields)
    → Gives (Permits p action key binding grant) (check_use p action key binding grant)
unfolding check_use
check_use-Permits p action key binding grant = >>=-Gives _ _ λ _ unused.
    >>=-Gives _ _ λ _ for_action. >>=-Gives _ _ λ _ for_key. >>=-Gives _ _ λ stored has_binding.
      >>=-Gives _ _ λ _ same. Gives-last _ λ expires_at expires. record {
        unused = raise_if-eq_ok _ _ unused;
        for_action = require-eq_ok _ _ for_action;
        for_key = require-eq_ok _ _ for_key;
        for_purpose = has_binding ∙ ap ok ((eq_iff stored binding).0 (require-eq_ok _ _ same));
        expires = expires;
      }

-- The first grant of the token in the list.
pub record FirstGrant (p : Platform) (consent_id : String) (grants : List Json) (f : Found)
    : Type 0 where
  pub digest : String
  pub digests : token_digest p (str consent_id) ≡ ok digest
  pub finds : find_grant consent_id digest grants ≡ ok (some f)

find_token-FirstGrant :
    (p : Platform) (consent_id : String) (grants : List Json)
    → Gives (FirstGrant p consent_id grants) (find_token p consent_id grants)
unfolding find_token
find_token-FirstGrant p consent_id grants =
    >>=-Gives _ _ λ digest digests. >>=-Gives _ _ λ found finds. last digest digests found finds
  where
    last :
        (digest : String)
        → token_digest p (str consent_id) ≡ ok digest
        → (o : Option Found) → find_grant consent_id digest grants ≡ ok o
        → Gives
            (FirstGrant p consent_id grants)
            (or_raise o (consent_error "consent token not found"))
    last digest digests none finds = record { post = tt }
    last digest digests (some f) finds = record {
      post = record { digest = digest; digests = digests; finds = finds };
    }

pub record Selects {W : Type 0} (p : Platform) (h : Host W) (consent_id action key purpose : String)
    (w : W) (s : Selection) : Type 0 where
  pub normalized : String
  pub normalizes : normalize_purpose p (str purpose) ≡ ok normalized
  pub unlocked : h.write_guard w ≡ ok tt
  pub loads : load_state p h w ≡ ok s.state
  pub grants : List Json
  pub lists : require_list (get_or_null "grants" s.state) ≡ ok grants
  pub first : FirstGrant p consent_id grants s.found
  pub permits :
      Permits p action key (purpose_binding p normalized) s.found.record_found s.expires_at

module _ {W : Type 0} (p : Platform) (h : Host W) where
  select_grant-Gives :
      (consent_id action key purpose : String) (w : W)
      → Gives
          (Selects p h consent_id action key purpose w)
          (select_grant p h consent_id action key purpose w)
  unfolding select_grant
  select_grant-Gives consent_id action key purpose w = >>=-Gives _ _ λ normalized normalizes.
      >>=-Gives _ _ λ _ unlocked. >>=-Gives _ _ λ state loads. >>=-Gives _ _ λ grants lists.
        >>=-Gives _ _ λ found finds. >>=-Gives _ _ λ expires_at permits. record {
          post = record {
            normalized = normalized;
            normalizes = normalizes;
            unlocked = unlocked;
            loads = loads;
            grants = grants;
            lists = lists;
            first = Gives-at (find_token-FirstGrant p consent_id grants) finds;
            permits = Gives-at (check_use-Permits p action key _ found.record_found) permits;
          };
        }

  pub select_grant-Selects :
      (consent_id action key purpose : String) (w : W) (s : Selection)
      → select_grant p h consent_id action key purpose w ≡ ok s
      → Selects p h consent_id action key purpose w s
  select_grant-Selects consent_id action key purpose w s =
      Gives-at (select_grant-Gives consent_id action key purpose w)
