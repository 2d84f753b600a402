-- ===== src/Migration/Stuck.antt =====
-- A ready migration of agent_personal_vault/kdf_migration.py that has lost a backup.
use agent_personal_vault.Prelude.{
  ◌≡◌, ◌∙◌, refl, sym, subst, String, Bool, true, false, ◌==◌, ◌&&◌, Option, some, List, arith,
}
use agent_personal_vault.Result.{Error, Result, ok, err, value_error, ◌>>=◌, ok_inj}
use agent_personal_vault.Exec.{Exec, continue, reads}
use agent_personal_vault.Platform.{Platform}
use agent_personal_vault.Files.{Member, vault, consent, audit, current, backup, journal, Files}
use agent_personal_vault.Guard.Blocked.{kdf_write_guard-raises}
use agent_personal_vault.Migration.{Present, Staged, ready}
use agent_personal_vault.Migration.Each.{each}
use agent_personal_vault.Migration.Targets.{read_file}
use agent_personal_vault.Migration.Checks.{
  load_journal, hash_current, is_target, is_target_if, all_target, check_backup, check_member,
  validated_original,
}
use agent_personal_vault.Migration.Resume.{resume_ready, resume_guarded, resume_kdf_migration}
use agent_personal_vault.Migration.Rollback.{
  restore_ready, rollback_guarded, rollback_kdf_migration,
}
use agent_personal_vault.Migration.Loops.{entry, collect, each-reads, collect-at}

-- A block whose rest raises, if its first step returns, which leaves the state alone.
raises_after :
    {W A C : Type 0} (m : Exec W A) (f : A → Exec W C) (w : W) (r : Result A)
    → m w ≡ (r, w)
    → ((a : A) → r ≡ ok a → (e : Error) × (f a w ≡ (err e, w)))
    → (e : Error) × (continue (m w).0 (m w).1 f ≡ (err e, w))
unfolding continue
raises_after m f w (ok a) h rest = let (e, raised) = rest a refl in (e, rw (h) raised)
raises_after m f w (err e) h rest = (e, rw (h) refl)

module _ {W B : Type 0} (f : Files W B) where
  -- The loss: the backup of a member is missing.
  pub record Lost (staged : Present Staged) (w : W) : Type 0 where
    pub applied : List Member
    pub incomplete : f.private_file_exists journal w ≡ ok true
    pub loads : load_journal f w ≡ ok (record { members = ready staged; applied = applied })
    pub member : Member
    pub record_of_member : Staged
    pub listed : entry member staged ≡ some record_of_member
    pub missing : f.private_file_exists (backup member) w ≡ ok false
    -- and the file of a member is not its target
    pub other : Member
    pub record_of_other : Staged
    pub other_listed : entry other staged ≡ some record_of_other
    pub payload : B
    pub reads_other : read_file f (current other) w ≡ ok payload
    pub not_target : (f.sha256 payload == record_of_other.target.sha256) ≡ false

  all_target-at :
      (d : Present (Staged × String)) (m : Member) (h : Staged × String)
      → entry m d ≡ some h
      → is_target f h ≡ false
      → all_target f d ≡ false
  all_target-at d vault h e n =
      let same : d.of_vault ≡ h = cc in and_first (is_target f d.of_vault) _ (rw (same) n)
    where
      and_first : (a b : Bool) → a ≡ false → (a && b) ≡ false
      and_first a b h = ground arith
  all_target-at d consent h e n =
      middle (is_target f d.of_vault) (is_target_if f d.of_consent) _ (rw (e) n)
    where
      middle : (a b c : Bool) → b ≡ false → (a && (b && c)) ≡ false
      middle a b c h = ground arith
  all_target-at d audit h e n =
      last (is_target f d.of_vault) (is_target_if f d.of_consent) (is_target_if f d.of_audit)
        (rw (e) n)
    where
      last : (a b c : Bool) → c ≡ false → (a && (b && c)) ≡ false
      last a b c h = ground arith

  hash_current-reads :
      (m : Member) (s : Staged) (w : W) (b : B)
      → read_file f (current m) w ≡ ok b
      → hash_current f m s w ≡ ok (s, f.sha256 b)
  unfolding ◌>>=◌
  hash_current-reads m s w b h = rw (h) refl

  check_backup-missing :
      (passphrase : String) (m : Member) (s : Staged) (w : W)
      → f.private_file_exists (backup m) w ≡ ok false
      → check_backup f false passphrase m s w
        ≡ err (value_error "migration backup is missing or invalid; rollback is unavailable")
  unfolding check_backup ◌>>=◌
  check_backup-missing passphrase m s w missing = rw (missing) refl

  check_member-missing :
      (passphrase : String) (m : Member) (h : Staged × String) (w : W)
      → f.private_file_exists (backup m) w ≡ ok false
      → check_member f false passphrase m h w
        ≡ err (value_error "migration backup is missing or invalid; rollback is unavailable")
  unfolding check_member ◌>>=◌
  check_member-missing passphrase m h w missing =
      rw (check_backup-missing passphrase m h.0 w missing) refl

  validated_original-missing :
      (passphrase : String) (m : Member) (s : Staged) (w : W)
      → f.private_file_exists (backup m) w ≡ ok false
      → validated_original f passphrase m s w
        ≡ err (value_error "migration backup is missing or invalid")
  unfolding validated_original ◌>>=◌
  validated_original-missing passphrase m s w missing = rw (missing) refl

  err_ok : {A : Type 0} {e : Error} {a : A} → err e ≡ ok a → ⊥
  err_ok h = cc

  module _ (staged : Present Staged) (passphrase : String) (w : W) (lost : Lost staged w) where
    -- Not every file is its target.
    not_all :
        (hashes : Present (Staged × String))
        → collect (λ m s. hash_current f m s) staged w ≡ ok hashes
        → all_target f hashes ≡ false
    not_all hashes e =
        let (h, hashed, at) =
          collect-at (λ m s. hash_current f m s) staged w hashes lost.other lost.record_of_other e
            lost.other_listed in
        let same = ok_inj (
          sym hashed
          ∙ hash_current-reads lost.other lost.record_of_other w lost.payload lost.reads_other) in
        all_target-at hashes lost.other h at (rw (same) lost.not_target)

    no_check :
        (hashes : Present (Staged × String)) (targets : Present (Staged × Option B))
        → collect (λ m s. hash_current f m s) staged w ≡ ok hashes
        → collect (λ m h. check_member f (all_target f hashes) passphrase m h) hashes w ≡ ok targets
        → ⊥
    no_check hashes targets e e' =
        let (h, _, at) =
          collect-at (λ m s. hash_current f m s) staged w hashes lost.member lost.record_of_member e
            lost.listed in
        let (c, passed, _) =
          collect-at (λ m h. check_member f (all_target f hashes) passphrase m h) hashes w targets
            lost.member h e' at in
        err_ok (
          sym (check_member-missing passphrase lost.member h w lost.missing)
          ∙ subst (λ b. check_member f b passphrase lost.member h w ≡ ok c) (not_all hashes e)
              passed)

    resume_stops : (e : Error) × (resume_ready f passphrase staged lost.applied w ≡ (err e, w))
    unfolding resume_ready
    resume_stops =
        raises_after (each (λ m s. reads (hash_current f m s)) staged) _ w _
          (each-reads (λ m s. hash_current f m s) staged w)
          λ hashes hashed.
            raises_after
              (each (λ m h. reads (check_member f (all_target f hashes) passphrase m h)) hashes) _ w
              _ (each-reads (λ m h. check_member f (all_target f hashes) passphrase m h) hashes w)
              λ targets checked. absurd (no_check hashes targets hashed checked)

    restore_stops : (e : Error) × (restore_ready f passphrase staged w ≡ (err e, w))
    unfolding restore_ready
    restore_stops =
        raises_after (each (λ m s. reads (validated_original f passphrase m s)) staged) _ w _
          (each-reads (λ m s. validated_original f passphrase m s) staged w)
          λ originals read.
            let (_, passed, _) =
              collect-at (λ m s. validated_original f passphrase m s) staged w originals lost.member
                lost.record_of_member read lost.listed in
            absurd (
              err_ok (
                sym (
                  validated_original-missing passphrase lost.member lost.record_of_member w
                    lost.missing)
                ∙ passed))

    rollback_raises : (e : Error) × (rollback_guarded f passphrase true w ≡ (err e, w))
    unfolding continue
    rollback_raises =
        let (e, raised) = restore_stops in rw (lost.incomplete, lost.loads) (e, rw (raised) refl)

    resume_raises :
        (p : Platform) → (e : Error) × (resume_guarded p f passphrase true w ≡ (err e, w))
    unfolding continue
    resume_raises p = let (e, raised) = resume_stops in rw (lost.incomplete, lost.loads) (e, raised)

    -- If a ready migration has lost the backup of a member, and the file of a member is not its target,
    -- then a rollback and a resume both raise, under every passphrase, and neither changes anything.
    pub lost_backup_is_stuck :
        (p : Platform) (active : Bool)
        → ((e : Error) × (rollback_kdf_migration f active passphrase w ≡ (err e, w)))
          × ((e : Error) × (resume_kdf_migration p f active passphrase w ≡ (err e, w)))
    unfolding rollback_kdf_migration resume_kdf_migration
    lost_backup_is_stuck p active = (
      kdf_write_guard-raises f active (rollback_guarded f passphrase) w rollback_raises,
      kdf_write_guard-raises f active (resume_guarded p f passphrase) w (resume_raises p),
    )
