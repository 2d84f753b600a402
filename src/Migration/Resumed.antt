-- ===== src/Migration/Resumed.antt =====
-- `resume_kdf_migration` of agent_personal_vault/kdf_migration.py from a ready journal.
use agent_personal_vault.Prelude.{
  ◌≡◌, ◌∙◌, refl, sym, ap, subst, inl, String, Bool, Option, none, some, List,
}
use agent_personal_vault.Result.{Result, ok}
use agent_personal_vault.Exec.{
  Exec, continue, continue-keeps, reads, Returns, continue-Returns, Returns-step, Returns-at,
  Returns-value,
}
use agent_personal_vault.Files.{Member, current, journal, Files, FilesLaws}
use agent_personal_vault.Migration.{Present, Staged, names}
use agent_personal_vault.Migration.Each.{each}
use agent_personal_vault.Migration.Checks.{hash_current, all_target, check_member, complete_target}
use agent_personal_vault.Migration.Resume.{apply_all, cleanup, resume_ready}
use agent_personal_vault.Migration.Loops.{entry, collect, each-reads, collect-at}
use agent_personal_vault.Migration.Held.{
  Every, CurrentIs, IsTarget, IsEither, Recoverable, Recoverable-Untouched, Recoverable-Replaced,
  Every-currents,
}
use agent_personal_vault.Migration.Kept.{write_private_bytes-Replaced, apply_all-keeps}
use agent_personal_vault.Migration.Cleanup.{cleanup-Currents, cleanup-journal}
use agent_personal_vault.Migration.Recovery.{checks-Targets, apply_all-Returns}

-- A loop that only reads, before the rest of a block.
loop-keeps :
    {W A C D : Type 0} (P : W → Type 0) (g : Member → A → W → Result C) (d : Present A) (w : W)
    (rest : Present C → Exec W D)
    → P w
    → ((e : Present C) → collect g d w ≡ ok e → P (rest e w).1)
    → P (continue (each (λ m a. reads (g m a)) d w).0 (each (λ m a. reads (g m a)) d w).1 rest).1
loop-keeps P g d w rest here after =
    rw (each-reads g d w) (continue-keeps P (collect g d w) w rest here after)

pub loop-Returns :
    {W A C D : Type 0} {Q : D → W → Type 0} (g : Member → A → W → Result C) (d : Present A) (w : W)
    (rest : Present C → Exec W D)
    → ((e : Present C) → collect g d w ≡ ok e → Returns Q (rest e w))
    → Returns Q
        (continue (each (λ m a. reads (g m a)) d w).0 (each (λ m a. reads (g m a)) d w).1 rest)
loop-Returns g d w rest after =
    rw (each-reads g d w) (continue-Returns (collect g d w) w rest after)

module _ {W B : Type 0} (f : Files W B) (laws : FilesLaws f) (staged : Present Staged) where
  -- The members that were checked are those of the journal.
  listed_in :
      (stand : Bool) (passphrase : String) (w : W) (hashes : Present (Staged × String))
      (targets : Present (Staged × Option B))
      → collect (λ m s. hash_current f m s) staged w ≡ ok hashes
      → collect (λ m h. check_member f stand passphrase m h) hashes w ≡ ok targets
      → (m : Member) (s : Staged) → entry m staged ≡ some s
      → (o : Option B) × (entry m targets ≡ some (s, o))
  listed_in stand passphrase w hashes targets e e' m s listed =
      let (h, _, at) = collect-at (λ m s. hash_current f m s) staged w hashes m s e listed in
      let (t, _, at') =
        collect-at (λ m h. check_member f stand passphrase m h) hashes w targets m h e' at in
      let (back, _) =
        checks-Targets f laws staged stand passphrase w hashes targets e e' m t.0 t.1 at' in
      (t.1, at' ∙ ap (λ x. some (x, t.1)) (some_inj (sym back ∙ listed)))
    where
      some_inj : {x y : Staged} → some x ≡ some y → x ≡ y
      some_inj h = cc

  -- What the cleanup keeps when every file is its target.
  cleanup-Recoverable :
      (w : W)
      → Recoverable f laws staged w
      → Every (CurrentIs f laws (IsTarget f laws)) staged w
      → Recoverable f laws staged (cleanup f (names staged) w).1
  cleanup-Recoverable w r done =
      let same = cleanup-Currents f laws (names staged) w in
      record {
        either = Every-currents f laws (IsEither f laws) staged w _ same r.either;
        safe = inl (Every-currents f laws (IsTarget f laws) staged w _ same done);
      }

  pub resume_ready-Recoverable :
      (passphrase : String) (applied : List Member) (w : W)
      → Recoverable f laws staged w
      → Recoverable f laws staged (resume_ready f passphrase staged applied w).1
  unfolding resume_ready
  resume_ready-Recoverable passphrase applied w here =
      let P : W → Type 0 = Recoverable f laws staged in
      loop-keeps P (λ m s. hash_current f m s) staged w _ here
        λ hashes hashed.
          loop-keeps P (λ m h. check_member f (all_target f hashes) passphrase m h) hashes w _ here
            λ targets checked.
              let found =
                checks-Targets f laws staged (all_target f hashes) passphrase w hashes targets
                  hashed checked in
              let listed =
                listed_in (all_target f hashes) passphrase w hashes targets hashed checked in
              let applied_all =
                apply_all-keeps f laws P staged targets
                  (λ k s b v at r.
                    let (there, fits) = found k s (some b) at in
                    Recoverable-Replaced f laws staged k s b v _
                      (write_private_bytes-Replaced f laws k b v) there (fits b refl) r)
                  (λ v v' u r. Recoverable-Untouched f laws staged v v' u r) applied w here in
              loop-keeps P (λ m t. complete_target f m t) targets w _ here
                λ complete _. continue-keeps P _ w _ here λ _ _.
                  continue-keeps P (apply_all f staged targets applied w).0
                    (apply_all f staged targets applied w).1 _ applied_all
                    λ _ returned.
                      let clean = cleanup-Recoverable _ applied_all (
                        Returns-value (apply_all f staged targets applied w)
                          (apply_all-Returns f laws staged targets found listed applied w)
                          returned) in
                      continue-keeps P _ _ _ clean (λ _ _. clean)

  -- What a resume leaves when it returns.
  pub record Completed (w : W) : Type 0 where
    pub targets : Every (CurrentIs f laws (IsTarget f laws)) staged w
    pub finished : laws.content journal w ≡ none

  pub resume_ready-Completed :
      (passphrase : String) (applied : List Member) (w : W)
      → Returns (λ _ w'. Completed w') (resume_ready f passphrase staged applied w)
  unfolding resume_ready
  resume_ready-Completed passphrase applied w =
      loop-Returns (λ m s. hash_current f m s) staged w _
        λ hashes hashed.
          loop-Returns (λ m h. check_member f (all_target f hashes) passphrase m h) hashes w _
            λ targets checked.
              let found =
                checks-Targets f laws staged (all_target f hashes) passphrase w hashes targets
                  hashed checked in
              let listed =
                listed_in (all_target f hashes) passphrase w hashes targets hashed checked in
              loop-Returns (λ m t. complete_target f m t) targets w _
                λ complete _. continue-Returns _ w _ λ _ _.
                  Returns-step (apply_all f staged targets applied w) _ λ _ w1 applied_all.
                    Returns-step (cleanup f (names staged) w1) _ λ _ w2 cleaned.
                      let done =
                        Returns-at (apply_all-Returns f laws staged targets found listed applied w)
                          applied_all in
                      let same =
                        subst
                          (λ v.
                            (m : Member) → laws.content (current m) v ≡ laws.content (current m) w1)
                          (ap (λ x. x.1) cleaned) (cleanup-Currents f laws (names staged) w1) in
                      record {
                        post = record {
                          targets = Every-currents f laws (IsTarget f laws) staged w1 w2 same done;
                          finished = Returns-at (cleanup-journal f laws (names staged) w1) cleaned;
                        };
                      }
