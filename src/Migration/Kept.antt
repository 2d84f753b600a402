-- ===== src/Migration/Kept.antt =====
-- `resume_kdf_migration` of agent_personal_vault/kdf_migration.py keeps a migration recoverable, wherever
-- it stops.
use agent_personal_vault.Prelude.{
  ◌≡◌, ◌∙◌, refl, ap, inl, inr, Bool, true, false, ◌==◌, Option, none, some, List, [], ◌∷◌, ◌++◌,
  if◌then◌else◌,
}
use agent_personal_vault.Result.{require, value_error}
use agent_personal_vault.Exec.{pure, continue-keeps, lift}
use agent_personal_vault.Python.Json.{obj, Fields}
use agent_personal_vault.Files.{
  Member, vault, consent, audit, current, backup, journal, has_member, Files, FilesLaws,
}
use agent_personal_vault.Files.Save.{write_private_json}
use agent_personal_vault.Migration.{Present, Staged, ready}
use agent_personal_vault.Migration.Journal.{journal_of}
use agent_personal_vault.Migration.Targets.{read_file}
use agent_personal_vault.Migration.Resume.{
  write_target, replace_current, write_applied, record_applied, apply_member, apply_if, apply_all,
}
use agent_personal_vault.Migration.Loops.{entry}
use agent_personal_vault.Migration.Held.{IsTarget, Untouched, Replaced}

module _ {W B : Type 0} (f : Files W B) (laws : FilesLaws f) where
  pub write_private_bytes-Replaced :
      (k : Member) (b : B) (w : W) → Replaced f laws k b w (f.write_private_bytes (current k) b w).1
  write_private_bytes-Replaced k b w = laws.write_raised (current k) b w

  journal-Untouched : (b : B) (w : W) → Untouched f laws w (f.write_private_bytes journal b w).1
  journal-Untouched b w = elim (laws.write_raised journal b w) [
    | inl same ↦ record { currents = λ m. same (current m); backups = λ m. same (backup m) }
    | inr new ↦ record { currents = λ m. new (current m); backups = λ m. new (backup m) }
  ]

  pub Untouched-refl : (w : W) → Untouched f laws w w
  Untouched-refl w = record { currents = λ m. refl; backups = λ m. refl }

  write_journal-Untouched :
      (fields : Fields) (w : W) → Untouched f laws w (write_private_json f journal fields w).1
  unfolding write_private_json
  write_journal-Untouched fields w =
      continue-keeps (Untouched f laws w) _ w _ (Untouched-refl w) λ _ _.
        continue-keeps (Untouched f laws w) _ w _ (Untouched-refl w)
          (λ _ _. journal-Untouched (f.dumps_indented (obj fields)) w)

  pub record_applied-Untouched :
      (staged : Present Staged) (m : Member) (applied : List Member) (w : W)
      → Untouched f laws w (record_applied f staged m applied w).1
  unfolding record_applied
  record_applied-Untouched staged m applied w = split (has_member m applied)
    where
      new : List Member
      new = applied ++ (m ∷ [])

      split :
          (b : Bool)
          → Untouched f laws w ((if b then pure applied else write_applied f staged new) w).1
      split true = Untouched-refl w
      split false =
          continue-keeps (Untouched f laws w) _ _ _
            (write_journal-Untouched (journal_of (ready staged) new) w)
            (λ _ _. write_journal-Untouched (journal_of (ready staged) new) w)

  -- A candidate for a member is its target.
  abbrev pub Candidate : Staged → Option B → Type 0
  Candidate s none = Unit
  Candidate s (some b) = IsTarget f laws s b

  module _ (P : W → Type 0) (k : Member) (s : Staged) (o : Option B)
      (written : (b : B) (w : W) → o ≡ some b → P w → P (f.write_private_bytes (current k) b w).1)
      (untouched : (w w' : W) → Untouched f laws w w' → P w → P w') where
    write_target-keeps : (w : W) → P w → P (write_target f k o w).1
    write_target-keeps w here = go o refl
      where
        go : (x : Option B) → o ≡ x → P (write_target f k x w).1
        go none e = here
        go (some b) e = written b w e here

    replace-keeps : (payload : B) (w : W) → P w → P (replace_current f k s o payload w).1
    unfolding replace_current
    replace-keeps payload w here = split (f.sha256 payload == s.original.sha256)
      where
        split :
            (b : Bool)
            → P
                ((if b
                    then write_target f k o
                    else lift (
                        require
                          (f.sha256 payload == s.target.sha256)
                          (value_error "migration target changed; rollback required")))
                  w).1
        split true = write_target-keeps w here
        split false = here

    -- What a replacement by the candidate and the writes of the journal keep, a round keeps.
    pub apply_member-keeps :
        (staged : Present Staged) (applied : List Member) (w : W)
        → P w
        → P (apply_member f staged k (s, o) applied w).1
    unfolding apply_member
    apply_member-keeps staged applied w here =
        continue-keeps P (read_file f (current k) w) w _ here λ payload _.
          let after = replace-keeps payload w here in
          continue-keeps P _ _ _ after λ _ _. continue-keeps P _ _ _ after λ _ _.
            continue-keeps P _ _ _ after
              (λ _ _. untouched _ _ (record_applied-Untouched staged k applied _) after)

  -- The candidates, as the checks of a resume find them.
  abbrev pub Targets : Present Staged → Present (Staged × Option B) → Type 0
  Targets staged targets =
      (m : Member) (s : Staged) (o : Option B)
      → entry m targets ≡ some (s, o)
      → (entry m staged ≡ some s) × ((b : B) → o ≡ some b → IsTarget f laws s b)

  -- The loop over the members.
  module _ (P : W → Type 0) (staged : Present Staged) (targets : Present (Staged × Option B))
      (written : (k : Member) (s : Staged) (b : B) (w : W)
        → entry k targets ≡ some (s, some b)
        → P w
        → P (f.write_private_bytes (current k) b w).1)
      (untouched : (w w' : W) → Untouched f laws w w' → P w → P w') where
    pub one :
        (k : Member) (t : Staged × Option B) (applied : List Member) (w : W)
        → entry k targets ≡ some t
        → P w
        → P (apply_member f staged k t applied w).1
    one k (s, o) applied w listed here =
        apply_member-keeps P k s o
          (λ b v o_b h. written k s b v (listed ∙ ap (λ x. some (s, x)) o_b) h) untouched staged
          applied w here

    pub one_if :
        (k : Member) (t : Option (Staged × Option B)) (applied : List Member) (w : W)
        → entry k targets ≡ t
        → P w
        → P (apply_if f staged k t applied w).1
    one_if k none applied w listed here = here
    one_if k (some t) applied w listed here = one k t applied w listed here

    pub apply_all-keeps :
        (applied : List Member) (w : W) → P w → P (apply_all f staged targets applied w).1
    apply_all-keeps applied w here =
        let first = one vault targets.of_vault applied w refl here in
        continue-keeps P _ _ _ first λ after_vault _.
          let second = one_if consent targets.of_consent after_vault _ refl first in
          continue-keeps P _ _ _ second
            (λ after_consent _. one_if audit targets.of_audit after_consent _ refl second)
