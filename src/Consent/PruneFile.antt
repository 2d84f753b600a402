-- ===== src/Consent/PruneFile.antt =====
-- What `prune_consent_records` of agent_personal_vault/consent.py leaves in the consent file.
use agent_personal_vault.Prelude.{ℕ, ◌-◌, ◌+◌, ◌≡◌, List, length}
use agent_personal_vault.Result.{ok}
use agent_personal_vault.Python.Json.{Json, obj, Fields, get_or_null}
use agent_personal_vault.Platform.{Platform}
use agent_personal_vault.Host.{Host}
use agent_personal_vault.Consent.State.{
  require_list, load_state, normalize_records, normalize_grant,
}
use agent_personal_vault.Consent.Prune.{grant_terminal_at, request_terminal_at}
use agent_personal_vault.Consent.Retention.{Pruned}
use agent_personal_vault.Consent.Stored.{HasGrants}
use agent_personal_vault.Consent.StoredRequests.{StoredRequests}
use agent_personal_vault.Consent.Pruning.{Pruning}

module _ {W : Type 0} (p : Platform) (h : Host W) where
  -- From the state that was loaded at `w` to the file of `w'`.
  pub record PrunedFile (current_time cutoff : ℕ) (w : W) (result : Pruned) (w' : W) : Type 0 where
    pub state : Fields
    pub loaded : load_state p h w ≡ ok state
    pub grants : List Json
    pub has_grants : require_list (get_or_null "grants" state) ≡ ok grants
    pub requests : List Json
    pub has_requests : require_list (get_or_null "requests" state) ≡ ok requests
    pub kept : List Json
    pub pruning : Pruning (grant_terminal_at p current_time) cutoff grants kept
    pub kept_requests : List Json
    pub request_pruning : Pruning (request_terminal_at p current_time) cutoff requests kept_requests
    pub stored : Fields
    pub js : List Json
    pub content : h.read_consent w' ≡ ok (obj stored)
    pub has_js : HasGrants js stored
    pub normal : normalize_records p (normalize_grant p) kept ≡ ok js
    pub requests_stored : StoredRequests p kept_requests stored
    pub grants_removed : result.grants_removed ≡ length grants - length kept
    pub requests_removed : result.requests_removed ≡ length requests - length kept_requests
    pub retained : result.retained ≡ length kept + length kept_requests
