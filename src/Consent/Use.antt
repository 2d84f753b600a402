-- ===== src/Consent/Use.antt =====
-- The tests of `prepare_consent_consumption` in agent_personal_vault/consent.py, up to the reading
-- of the clock: they read the state and change nothing.
use agent_personal_vault.Prelude.{ℕ, String, ◌==◌, List}
use agent_personal_vault.Result.{Result, consent_error, require, raise_if, ok, ◌>>=◌, ◌>>◌}
use agent_personal_vault.Python.Json.{Json, str, Fields, get_or_null, truthy}
use agent_personal_vault.Platform.{Platform}
use agent_personal_vault.Host.{Host}
use agent_personal_vault.Consent.Record.{
  token_digest, purpose_binding, normalize_purpose, validate_purpose_binding, parse_expires_at,
}
use agent_personal_vault.Consent.State.{require_list, load_state}
use agent_personal_vault.Consent.Find.{Found, has_text, find_grant, or_raise}

-- The tests on the grant that was found, in the order of the source.
unfoldable pub check_use : Platform → String → String → String → Fields → Result ℕ
check_use p action key binding grant = do
  raise_if (truthy p.zero_float (get_or_null "used_at" grant))
      (consent_error "consent token has already been used")
  require (has_text "action" action grant) (consent_error "consent token action mismatch")
  require (has_text "key" key grant) (consent_error "consent token key mismatch")
  stored ← validate_purpose_binding (get_or_null "purpose_binding" grant)
  require (stored == binding) (consent_error "consent token purpose mismatch")
  parse_expires_at p (get_or_null "expires_at" grant)

-- The grant of a token among the grants of a state.
unfoldable pub find_token : Platform → String → List Json → Result Found
find_token p consent_id grants = do
  digest ← token_digest p (str consent_id)
  found ← find_grant consent_id digest grants
  or_raise found (consent_error "consent token not found")

-- What the tests have found: the state, the grant in it, and its expiry.
pub record Selection : Type 0 where
  pub state : Fields
  pub found : Found
  pub expires_at : ℕ

unfoldable pub select_grant :
    {W : Type 0} → Platform → Host W → String → String → String → String → W → Result Selection
unfolding find_token check_use
select_grant p h consent_id action key purpose w = do
  normalized ← normalize_purpose p (str purpose)
  h.write_guard w
  state ← load_state p h w
  grants ← require_list (get_or_null "grants" state)
  found ← find_token p consent_id grants
  expires_at ← check_use p action key (purpose_binding p normalized) found.record_found
  ok (record { state = state; found = found; expires_at = expires_at })
