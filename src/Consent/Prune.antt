-- ===== src/Consent/Prune.antt =====
-- `prune_consent_records` of agent_personal_vault/consent.py.
use agent_personal_vault.Prelude.{
  ℕ, Bool, true, ◌&&◌, ◌||◌, Option, none, some, List, [], ◌∷◌, leb, if◌then◌else◌,
}
use agent_personal_vault.Result.{Error, Result, ok, err, ◌>>=◌}
use agent_personal_vault.Python.Json.{Json, obj, Fields, get_or_null, truthy}
use agent_personal_vault.Platform.{Platform}
use agent_personal_vault.Consent.Record.{parse_expires_at, request_expires_at}
use agent_personal_vault.Consent.Find.{has_text}

-- `grant.get` on a record that is no dict
abbrev pub not_a_dict : Error
not_a_dict = Error.attribute_error

module _ (p : Platform) (current_time : ℕ) where
  -- `terminal_at` of an expiry: the moment itself once it has passed
  abbrev pub passed : ℕ → Option ℕ
  passed expires_at = if leb expires_at current_time then some expires_at else none

  -- When a grant came to its end, if it has.
  unfoldable pub grant_terminal_at : Fields → Result (Option ℕ)
  grant_terminal_at grant =
      if truthy p.zero_float (get_or_null "used_at" grant)
      then (do t ← parse_expires_at p (get_or_null "used_at" grant); ok (some t))
      else (do t ← parse_expires_at p (get_or_null "expires_at" grant); ok (passed t))

  -- When a request came to its end, if it has.
  unfoldable pub request_terminal_at : Fields → Result (Option ℕ)
  request_terminal_at request =
      if (has_text "status" "approved" request || has_text "status" "denied" request)
        && truthy p.zero_float (get_or_null "resolved_at" request)
      then (do t ← parse_expires_at p (get_or_null "resolved_at" request); ok (some t))
      else if has_text "status" "pending" request
      then (do t ← request_expires_at p request; ok (passed t))
      else ok none

-- `terminal_at is None or terminal_at >= cutoff`
abbrev pub is_retained : ℕ → Option ℕ → Bool
is_retained cutoff none = true
is_retained cutoff (some t) = leb cutoff t

-- The loop that collects the retained records.
unfoldable pub retain : (Fields → Result (Option ℕ)) → ℕ → List Json → Result (List Json)
retain terminal_at cutoff [] = ok []
retain terminal_at cutoff (obj r ∷ js) = do
  t ← terminal_at r
  kept ← retain terminal_at cutoff js
  ok (if is_retained cutoff t then obj r ∷ kept else kept)
retain terminal_at cutoff (_ ∷ js) = err not_a_dict
