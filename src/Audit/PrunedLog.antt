-- ===== src/Audit/PrunedLog.antt =====
-- What `prune_audit_events` of agent_personal_vault/audit.py does to the stored log.
use agent_personal_vault.Prelude.{ℕ, ◌+◌, String, ◌≡◌, List, length}
use agent_personal_vault.Result.{Result, ok}
use agent_personal_vault.Exec.{Exec, Post as ExecPost}
use agent_personal_vault.Platform.{Platform}
use agent_personal_vault.Host.{Host, HostLaws}
use agent_personal_vault.Audit.Log.{Loaded, split_lines}
use agent_personal_vault.Audit.Sweep.{concat}
use agent_personal_vault.Audit.Retention.{Counted}
use agent_personal_vault.Audit.Pruning.{Selected}

module _ {W : Type 0} (p : Platform) (loads : String → Loaded) (h : Host W)
    (laws : HostLaws h) where
  -- The log before and after, and the counts.
  pub record PrunedLog (cutoff : ℕ) (w : W) (r : Counted) (w' : W) : Type 0 where
    pub text : String
    pub before : h.read_audit w ≡ ok text
    pub lines : List String
    pub lines_text : concat (split_lines text) ≡ text
    pub selected : Selected p loads cutoff (split_lines text) lines
    pub after : h.read_audit w' ≡ ok (concat lines)
    pub counted : r.removed + r.retained ≡ length (split_lines text)
