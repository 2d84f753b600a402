-- ===== src/Migration/RolledBack.antt =====
-- `rollback_kdf_migration` of agent_personal_vault/kdf_migration.py from the files of a ready migration.
use agent_personal_vault.Prelude.{
  ◌≡◌, ◌∙◌, refl, sym, ap, subst, String, Bool, true, Option, none, some, List,
}
use agent_personal_vault.Result.{ok}
use agent_personal_vault.Exec.{continue, Returns, continue-Returns, Returns-step, Returns-at}
use agent_personal_vault.Files.{Member, vault, consent, audit, current, journal, Files, FilesLaws}
use agent_personal_vault.Guard.Blocked.{kdf_write_guard-Returns_allowed}
use agent_personal_vault.Migration.{Present, Staged, ready, names}
use agent_personal_vault.Migration.Each.{each}
use agent_personal_vault.Migration.Staging.{Report}
use agent_personal_vault.Migration.Checks.{load_journal, validated_original}
use agent_personal_vault.Migration.Resume.{cleanup}
use agent_personal_vault.Migration.Rollback.{
  restore_member, restore_ready, rollback_journal, rollback_guarded, rollback_kdf_migration,
}
use agent_personal_vault.Migration.Loops.{entry, collect, collect-at, collect-back}
use agent_personal_vault.Migration.Held.{Every, CurrentIs, IsOriginal, Every-currents}
use agent_personal_vault.Migration.Cleanup.{cleanup-Currents, cleanup-journal}
use agent_personal_vault.Migration.Resumed.{loop-Returns}
use agent_personal_vault.Migration.Outcome.{load_journal-incomplete}
use agent_personal_vault.Migration.Restored.{
  restore_if, restore_if-Returns, restore_member-Returns, validated_original-IsOriginal,
  restored-keeps,
}

module _ {W B : Type 0} (f : Files W B) (laws : FilesLaws f) (staged : Present Staged) where
  -- The originals come from the backups of the members.
  originals_found :
      (passphrase : String) (w : W) (originals : Present (Staged × B))
      → collect (λ m s. validated_original f passphrase m s) staged w ≡ ok originals
      → (m : Member) (t : Staged × B) → entry m originals ≡ some t
      → (entry m staged ≡ some t.0) × IsOriginal f laws t.0 t.1
  originals_found passphrase w originals e m t at =
      let (s, listed, got) =
        collect-back (λ m s. validated_original f passphrase m s) staged w originals m t e at in
      let (same, is) = validated_original-IsOriginal f laws passphrase m s w t got in
      (listed ∙ ap some same, is)

  originals_listed :
      (passphrase : String) (w : W) (originals : Present (Staged × B))
      → collect (λ m s. validated_original f passphrase m s) staged w ≡ ok originals
      → (m : Member) (s : Staged) → entry m staged ≡ some s
      → (t : Staged × B) × (entry m originals ≡ some t) × (t.0 ≡ s)
  originals_listed passphrase w originals e m s listed =
      let (t, got, at) =
        collect-at (λ m s. validated_original f passphrase m s) staged w originals m s e listed in
      (t, at, sym (validated_original-IsOriginal f laws passphrase m s w t got).0)

  -- The loop that writes the originals, when it returns, has left every original.
  restored :
      (originals : Present (Staged × B)) (w : W)
      → ((m : Member) (t : Staged × B)
          → entry m originals ≡ some t
          → (entry m staged ≡ some t.0) × IsOriginal f laws t.0 t.1)
      → ((m : Member) (s : Staged)
          → entry m staged ≡ some s
          → (t : Staged × B) × (entry m originals ≡ some t) × (t.0 ≡ s))
      → Returns
          (λ _ w'. Every (CurrentIs f laws (IsOriginal f laws)) staged w')
          (each (restore_member f) originals w)
  restored originals w found listed =
      Returns-step (restore_member f vault originals.of_vault w) _ λ a1 w1 e1.
        Returns-step (restore_if f laws consent originals.of_consent w1) _ λ a2 w2 e2.
          Returns-step (restore_if f laws audit originals.of_audit w2) _ λ a3 w3 e3. record {
            post = λ m s here.
                let (t, at, t_s) = listed m s here in
                subst (λ x. CurrentIs f laws (IsOriginal f laws) m x w3) t_s
                  (elim m
                      as (λ n.
                        entry n originals ≡ some t
                        → CurrentIs f laws (IsOriginal f laws) n t.0 w3) [
                          | vault ↦ λ at. keep vault t at audit originals.of_audit w2 w3 refl e3 (
                              keep vault t at consent originals.of_consent w1 w2 refl e2 (
                                subst (λ x. CurrentIs f laws (IsOriginal f laws) vault x.0 w1)
                                  (some_inj at)
                                  (Returns-at
                                    (restore_member-Returns f laws vault originals.of_vault w) e1)))
                          | consent ↦ λ at.
                              keep consent t at audit originals.of_audit w2 w3 refl e3 (
                                Returns-at
                                  (restore_if-Returns f laws consent originals.of_consent t w1 at)
                                  e2)
                          | audit ↦ λ at.
                              Returns-at
                                (restore_if-Returns f laws audit originals.of_audit t w2 at) e3
                        ]
                    at);
          }
    where
      some_inj : {x y : Staged × B} → some x ≡ some y → x ≡ y
      some_inj h = cc

      keep :
          (m : Member) (t : Staged × B)
          → entry m originals ≡ some t
          → (k : Member) (o : Option (Staged × B)) (w w' : W) {a : Option (Unit {0})}
          → entry k originals ≡ o
          → restore_if f laws k o w ≡ (ok a, w')
          → CurrentIs f laws (IsOriginal f laws) m t.0 w
          → CurrentIs f laws (IsOriginal f laws) m t.0 w'
      keep m t at k o w w' at_k e c =
          restored-keeps f laws staged originals found m t.0 (found m t at).0 k o w w' at_k e c

  -- What a rollback leaves when it returns.
  pub record RolledBack (w : W) : Type 0 where
    pub originals : Every (CurrentIs f laws (IsOriginal f laws)) staged w
    pub finished : laws.content journal w ≡ none

  restore_ready-Returns :
      (passphrase : String) (w : W)
      → Returns
          (λ _ w'. Every (CurrentIs f laws (IsOriginal f laws)) staged w')
          (restore_ready f passphrase staged w)
  unfolding restore_ready
  restore_ready-Returns passphrase w =
      loop-Returns (λ m s. validated_original f passphrase m s) staged w _
        λ originals read. continue-Returns _ w _ λ _ _.
          Returns-step (each (restore_member f) originals w) _ λ _ w1 e. record {
            post =
                Returns-at
                  (restored originals w (originals_found passphrase w originals read)
                    (originals_listed passphrase w originals read))
                  e;
          }

  rollback_ready-Returns :
      (passphrase : String) (applied : List Member) (w : W)
      → Returns
          (λ _ w'. RolledBack w')
          (rollback_journal f passphrase (record { members = ready staged; applied = applied }) w)
  rollback_ready-Returns passphrase applied w =
      Returns-step (restore_ready f passphrase staged w) _ λ _ w1 restored_all.
        Returns-step (cleanup f (names staged) w1) _ λ _ w2 cleaned.
          let same =
            subst (λ v. (m : Member) → laws.content (current m) v ≡ laws.content (current m) w1)
              (ap (λ x. x.1) cleaned) (cleanup-Currents f laws (names staged) w1) in
          record {
            post = record {
              originals =
                  Every-currents f laws (IsOriginal f laws) staged w1 w2 same
                    (Returns-at (restore_ready-Returns passphrase w) restored_all);
              finished = Returns-at (cleanup-journal f laws (names staged) w1) cleaned;
            };
          }

  pub rollback_guarded-ready :
      (passphrase : String) (applied : List Member) (w : W)
      → load_journal f w ≡ ok (record { members = ready staged; applied = applied })
      → rollback_guarded f passphrase true w
        ≡ rollback_journal f passphrase (record { members = ready staged; applied = applied }) w
  unfolding continue
  rollback_guarded-ready passphrase applied w loads =
      rw (load_journal-incomplete f w _ loads, loads) refl

  -- If the journal is ready and a rollback returns, then each member's file is the original, and the
  -- journal is gone.
  pub rollback_restores :
      (applied : List Member) (active : Bool) (passphrase : String) (w w' : W) (report : Report)
      → load_journal f w ≡ ok (record { members = ready staged; applied = applied })
      → rollback_kdf_migration f active passphrase w ≡ (ok report, w')
      → RolledBack w'
  unfolding rollback_kdf_migration
  rollback_restores applied active passphrase w w' report loads returned =
      Returns-at
        (kdf_write_guard-Returns_allowed f active (rollback_guarded f passphrase) w (
          subst (λ r. Returns (λ _ v. RolledBack v) r)
            (sym (rollback_guarded-ready passphrase applied w loads))
            (rollback_ready-Returns passphrase applied w)))
        returned
