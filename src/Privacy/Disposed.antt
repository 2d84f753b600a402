-- ===== src/Privacy/Disposed.antt =====
-- What a disposal of agent_personal_vault/privacy.py leaves.
use agent_personal_vault.Prelude.{
  ◌≡◌, ◌∙◌, refl, ap, subst, String, ◌==◌, Bool, true, false, Option, none, some, if◌then◌else◌,
}
use agent_personal_vault.Result.{ok, require-eq_ok}
use agent_personal_vault.Guard.{kdf_write_guard}
use agent_personal_vault.Exec.{
  Exec, pure, reads, ◌>>=◌, Returns-last, Returns-value, Returns, continue-Returns, Returns-step,
  Returns-at,
}
use agent_personal_vault.Files.{
  Member, vault, consent, audit, current, backup, next, is_there, Files, FilesLaws,
}
use agent_personal_vault.Guard.Blocked.{kdf_write_guard-Returns}
use agent_personal_vault.Privacy.{
  Disposal, dispose_confirmation, nothing_removed, any_file, has_state, remove_state,
  dispose_private_state,
}

module _ {W B : Type 0} (f : Files W B) (laws : FilesLaws f) where
  -- No file of the vault is there, and the files of a migration are as they were.
  pub record Gone (w w' : W) : Type 0 where
    pub members : (m : Member) → laws.content (current m) w' ≡ none
    pub backups : (m : Member) → laws.content (backup m) w' ≡ laws.content (backup m) w
    pub stagings : (m : Member) → laws.content (next m) w' ≡ laws.content (next m) w

  absent : (o : Option B) → is_there o ≡ false → o ≡ none
  absent none h = refl
  absent (some b) h = absurd (cc)

  remove_state-Gone : (w : W) → Returns (λ _ w'. Gone w w') (remove_state f true w)
  unfolding remove_state
  remove_state-Gone w = continue-Returns _ _ _ λ _ _. continue-Returns _ _ _ λ _ _.
      continue-Returns _ _ _ λ _ _. continue-Returns _ _ _ λ _ _. continue-Returns _ _ _ λ _ _.
        continue-Returns _ _ _ λ _ _. continue-Returns _ _ _ λ v removed_vault.
          continue-Returns _ _ _ λ c removed_consent. continue-Returns _ _ _ λ a removed_audit.
            let first = laws.removed (current vault) w v removed_vault in
            let second = laws.removed (current consent) _ c removed_consent in
            let third = laws.removed (current audit) _ a removed_audit in
            record {
              post = record {
                members = λ m. elim m as (λ n. laws.content (current n) _ ≡ none) [
                  | vault ↦ third (current vault) ∙ second (current vault) ∙ first (current vault)
                  | consent ↦ third (current consent) ∙ second (current consent)
                  | audit ↦ third (current audit)
                ];
                backups = λ m. third (backup m) ∙ second (backup m) ∙ first (backup m);
                stagings = λ m. third (next m) ∙ second (next m) ∙ first (next m);
              };
            }

  -- A look for the files leaves the state alone, and finds none only if none is there.
  Looked : W → Bool → W → Type 0
  Looked w b w' = (w' ≡ w) × (b ≡ false → (m : Member) → laws.content (current m) w ≡ none)

  any_file-Looked : (w : W) → Returns (Looked w) (any_file f w)
  unfolding Looked
  any_file-Looked w =
      continue-Returns _ _ _ λ b hv. found_vault b (laws.stat-content (current vault) w b hv)
    where
      none_there :
          is_there (laws.content (current vault) w) ≡ false
          → is_there (laws.content (current consent) w) ≡ false
          → is_there (laws.content (current audit) w) ≡ false
          → (m : Member) → laws.content (current m) w ≡ none
      none_there hv hc ha vault = absent _ hv
      none_there hv hc ha consent = absent _ hc
      none_there hv hc ha audit = absent _ ha

      found_audit :
          is_there (laws.content (current vault) w) ≡ false
          → is_there (laws.content (current consent) w) ≡ false
          → Returns (Looked w) (reads (f.private_file_stat (current audit)) w)
      found_audit hv hc =
          Returns-last _
            λ b e. (refl, λ no. none_there hv hc (laws.stat-content (current audit) w b e ∙ no))

      found_consent :
          (b : Bool)
          → is_there (laws.content (current vault) w) ≡ false
          → is_there (laws.content (current consent) w) ≡ b
          → Returns
              (Looked w)
              ((if b then pure true else reads (f.private_file_stat (current audit))) w)
      found_consent true hv hc = record { post = (refl, λ no. absurd (cc)) }
      found_consent false hv hc = found_audit hv hc

      ask_consent : Exec W Bool
      ask_consent = do
        has_consent ← reads (f.private_file_stat (current consent))
        if has_consent then pure true else reads (f.private_file_stat (current audit))

      found_vault :
          (b : Bool)
          → is_there (laws.content (current vault) w) ≡ b
          → Returns (Looked w) ((if b then pure true else ask_consent) w)
      found_vault true hv = record { post = (refl, λ no. absurd (cc)) }
      found_vault false hv =
          continue-Returns _ _ _
            λ b hc. found_consent b hv (laws.stat-content (current consent) w b hc)

  has_state-Looked : (w : W) → Returns (Looked w) (has_state f w)
  unfolding Looked
  has_state-Looked w = continue-Returns _ _ _ λ b e. look b
    where
      look : (b : Bool) → Returns (Looked w) ((if b then pure true else any_file f) w)
      look true = record { post = (refl, λ no. absurd (cc)) }
      look false = any_file-Looked w

  disposal-Gone :
      (active : Bool) (confirmation : String) (w : W)
      → Returns
          (λ _ w'. ((confirmation == dispose_confirmation) ≡ true) × Gone w w')
          (dispose_private_state f active confirmation w)
  unfolding dispose_private_state Looked
  disposal-Gone active confirmation w = continue-Returns _ _ _ λ _ asked.
      Returns-step (has_state f w) _ λ present w1 looked.
        branch (require-eq_ok _ _ asked) present w1 (Returns-at (has_state-Looked w) looked)
    where
      branch :
          (confirmation == dispose_confirmation) ≡ true
          → (present : Bool) (w1 : W) → Looked w present w1
          → Returns
              (λ _ w'. ((confirmation == dispose_confirmation) ≡ true) × Gone w w')
              ((if present
                  then kdf_write_guard f active false (remove_state f)
                  else pure nothing_removed)
                w1)
      branch phrase true w1 (same, _) = kdf_write_guard-Returns f active (remove_state f) w1 λ _.
          Returns-last _ λ d e. (
            phrase,
            subst (λ v. Gone v (remove_state f true w1).1) same
                (Returns-value _ (remove_state-Gone w1) e),
          )
      branch phrase false w1 (same, none_there) = record {
        post = (
          phrase,
          record {
            members = λ m. ap (laws.content (current m)) same ∙ none_there refl m;
            backups = λ m. ap (laws.content (backup m)) same;
            stagings = λ m. ap (laws.content (next m)) same;
          },
        );
      }

  -- If a disposal returns, it was called with the confirmation phrase, the vault, the consent state
  -- and the audit log are not there, and the backups and the staging files of a migration are as they
  -- were.
  pub dispose_private_state-Gone :
      (active : Bool) (confirmation : String) (w w' : W) (d : Disposal)
      → dispose_private_state f active confirmation w ≡ (ok d, w')
      → ((confirmation == dispose_confirmation) ≡ true) × Gone w w'
  dispose_private_state-Gone active confirmation w w' d e =
      Returns-at (disposal-Gone active confirmation w) e
