-- ===== src/Migration/Cleanup.antt =====
-- `_cleanup` of agent_personal_vault/kdf_migration.py, wherever it stops.
use agent_personal_vault.Prelude.{◌≡◌, ◌∙◌, refl, inl, inr, false, none, List, [], ◌∷◌}
use agent_personal_vault.Exec.{continue-keeps, Returns, continue-Returns, Returns-step}
use agent_personal_vault.Files.{
  Member, FileName, current, backup, next, journal, same_file, Files, FilesLaws,
}
use agent_personal_vault.Migration.Resume.{remove_each, cleanup}

module _ {W B : Type 0} (f : Files W B) (laws : FilesLaws f) where
  -- Removals of files that are not those of the members.
  abbrev pub Currents : W → W → Type 0
  Currents w w' = (m : Member) → laws.content (current m) w' ≡ laws.content (current m) w

  remove-Currents :
      (n : FileName) (w : W)
      → ((m : Member) → same_file (current m) n ≡ false)
      → Currents w (f.remove_private_file n w).1
  remove-Currents n w other m = elim (laws.remove_raised n w) [
    | inl same ↦ same (current m)
    | inr gone ↦ gone (current m) ∙ rw (other m) refl
  ]

  remove_each-Currents :
      (path : Member → FileName) (ms : List Member) (w0 w : W)
      → ((k m : Member) → same_file (current m) (path k) ≡ false)
      → Currents w0 w
      → Currents w0 (remove_each f path ms w).1
  unfolding remove_each
  remove_each-Currents path [] w0 w other here = here
  remove_each-Currents path (k ∷ ms) w0 w other here =
      let next_ : Currents w0 (f.remove_private_file (path k) w).1 =
        λ m. remove-Currents (path k) w (other k) m ∙ here m in
      continue-keeps (Currents w0) _ _ _ next_
        (λ _ _. remove_each-Currents path ms w0 _ other next_)

  pub cleanup-Currents : (ms : List Member) (w : W) → Currents w (cleanup f ms w).1
  unfolding cleanup
  cleanup-Currents ms w =
      let a = remove_each-Currents next (f.set_order ms) w w (λ k m. refl) (λ m. refl) in
      continue-keeps (Currents w) _ _ _ a λ _ _.
        let b = remove_each-Currents backup (f.set_order ms) w _ (λ k m. refl) a in
        continue-keeps (Currents w) _ _ _ b λ _ _.
          let c : Currents w _ = λ m. remove-Currents journal _ (λ n. refl) m ∙ b m in
          continue-keeps (Currents w) _ _ _ c (λ _ _. c)

  -- When it returns, the journal is gone.
  pub cleanup-journal :
      (ms : List Member) (w : W) → Returns (λ _ w'. laws.content journal w' ≡ none) (cleanup f ms w)
  unfolding cleanup
  cleanup-journal ms w = Returns-step (remove_each f next (f.set_order ms) w) _ λ _ w1 _.
      Returns-step (remove_each f backup (f.set_order ms) w1) _ λ _ w2 _.
        continue-Returns _ _ _
          λ b removed. record { post = laws.removed journal w2 b removed journal }
