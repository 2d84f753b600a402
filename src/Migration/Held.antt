-- ===== src/Migration/Held.antt =====
-- The files of a ready migration of agent_personal_vault/kdf_migration.py, and what a write or a removal
-- does to them.
use agent_personal_vault.Prelude.{
  ◌≡◌, ◌∙◌, refl, sym, ap, subst, ◌⊎◌, inl, inr, Bool-cases, true, ◌==◌, some, if◌then◌else◌,
}
use agent_personal_vault.Files.{
  Member, vault, consent, audit, FileName, current, backup, same_member, same_file, Files,
  FilesLaws,
}
use agent_personal_vault.Migration.{Present, Staged}
use agent_personal_vault.Migration.Checks.{matches_stamp}
use agent_personal_vault.Migration.Loops.{entry}

same_member-eq : (m n : Member) → same_member m n ≡ true → m ≡ n
same_member-eq vault vault h = refl
same_member-eq consent consent h = refl
same_member-eq audit audit h = refl
same_member-eq vault consent h = absurd (cc)
same_member-eq vault audit h = absurd (cc)
same_member-eq consent vault h = absurd (cc)
same_member-eq consent audit h = absurd (cc)
same_member-eq audit vault h = absurd (cc)
same_member-eq audit consent h = absurd (cc)

-- It holds of every member of the journal.
abbrev pub Every : {W : Type 0} → (Member → Staged → W → Type 0) → Present Staged → W → Type 0
Every P staged w = (m : Member) (s : Staged) → entry m staged ≡ some s → P m s w

module _ {W B : Type 0} (f : Files W B) (laws : FilesLaws f) where
  -- The file of a member holds bytes that are as `R` says.
  pub record CurrentIs (R : Staged → B → Type 0) (m : Member) (s : Staged) (w : W) : Type 0 where
    pub bytes : B
    pub there : laws.content (current m) w ≡ some bytes
    pub holds : R s bytes

  abbrev pub IsTarget : Staged → B → Type 0
  IsTarget s b = (f.sha256 b == s.target.sha256) ≡ true

  abbrev pub IsOriginal : Staged → B → Type 0
  IsOriginal s b = (f.sha256 b == s.original.sha256) ≡ true

  abbrev pub IsEither : Staged → B → Type 0
  IsEither s b = IsOriginal s b ⊎ IsTarget s b

  -- The backup of a member is the one that the journal names.
  pub record BackupIs (m : Member) (s : Staged) (w : W) : Type 0 where
    pub bytes : B
    pub there : laws.content (backup m) w ≡ some bytes
    pub holds : matches_stamp f bytes s.backup ≡ true

  -- The invariant: each file is the original or the target, and either all are targets or all
  -- backups are there.
  pub record Recoverable (staged : Present Staged) (w : W) : Type 0 where
    pub either : Every (CurrentIs IsEither) staged w
    pub safe : Every (CurrentIs IsTarget) staged w ⊎ Every BackupIs staged w

  -- Neither the files of the members nor their backups have changed.
  pub record Untouched (w w' : W) : Type 0 where
    pub currents : (m : Member) → laws.content (current m) w' ≡ laws.content (current m) w
    pub backups : (m : Member) → laws.content (backup m) w' ≡ laws.content (backup m) w

  pub CurrentIs-content :
      (R : Staged → B → Type 0) (m : Member) (s : Staged) (w w' : W)
      → laws.content (current m) w' ≡ laws.content (current m) w
      → CurrentIs R m s w
      → CurrentIs R m s w'
  CurrentIs-content R m s w w' e c = record {
    bytes = c.bytes;
    there = e ∙ c.there;
    holds = c.holds;
  }

  pub Every-currents :
      (R : Staged → B → Type 0) (staged : Present Staged) (w w' : W)
      → ((m : Member) → laws.content (current m) w' ≡ laws.content (current m) w)
      → Every (CurrentIs R) staged w
      → Every (CurrentIs R) staged w'
  Every-currents R staged w w' same h m s e = CurrentIs-content R m s w w' (same m) (h m s e)

  pub Every-backups :
      (staged : Present Staged) (w w' : W)
      → ((m : Member) → laws.content (backup m) w' ≡ laws.content (backup m) w)
      → Every BackupIs staged w
      → Every BackupIs staged w'
  Every-backups staged w w' same h m s e =
      let b = h m s e in record { bytes = b.bytes; there = same m ∙ b.there; holds = b.holds }

  pub Recoverable-Untouched :
      (staged : Present Staged) (w w' : W)
      → Untouched w w'
      → Recoverable staged w
      → Recoverable staged w'
  Recoverable-Untouched staged w w' u r = record {
    either = Every-currents IsEither staged w w' u.currents r.either;
    safe = elim r.safe [
      | inl t ↦ inl (Every-currents IsTarget staged w w' u.currents t)
      | inr b ↦ inr (Every-backups staged w w' u.backups b)
    ];
  }

  -- A write of the file of one member, whether it returns or raises.
  abbrev pub Replaced : Member → B → W → W → Type 0
  Replaced k b w w' =
      ((n : FileName) → laws.content n w' ≡ laws.content n w)
      ⊎ ((n : FileName)
          → laws.content n w' ≡ (if same_file n (current k) then some b else laws.content n w))

  pub CurrentIs-Replaced :
      (R : Staged → B → Type 0) (m k : Member) (s : Staged) (b : B) (w w' : W)
      → Replaced k b w w'
      → (m ≡ k → R s b)
      → CurrentIs R m s w
      → CurrentIs R m s w'
  CurrentIs-Replaced R m k s b w w' (inl same) fits c =
      CurrentIs-content R m s w w' (same (current m)) c
  CurrentIs-Replaced R m k s b w w' (inr replaced) fits c = elim (Bool-cases (same_member m k)) [
    | inl e ↦ record {
      bytes = b;
      there = replaced (current m) ∙ rw (e) refl;
      holds = fits (same_member-eq m k e);
    }
    | inr e ↦ CurrentIs-content R m s w w' (replaced (current m) ∙ rw (e) refl) c
  ]

  pub Every-Replaced :
      (R : Staged → B → Type 0) (staged : Present Staged) (k : Member) (s : Staged) (b : B)
      (w w' : W)
      → Replaced k b w w'
      → entry k staged ≡ some s
      → R s b
      → Every (CurrentIs R) staged w
      → Every (CurrentIs R) staged w'
  Every-Replaced R staged k s b w w' replaced listed fits h m t e =
      CurrentIs-Replaced R m k t b w w' replaced
        (λ m_k.
          subst (λ x. R x b) (some_inj (sym listed ∙ ap (λ n. entry n staged) (sym m_k) ∙ e)) fits)
        (h m t e)
    where
      some_inj : {x y : Staged} → some x ≡ some y → x ≡ y
      some_inj h = cc

  pub backups-Replaced :
      (k : Member) (b : B) (w w' : W)
      → Replaced k b w w'
      → (m : Member) → laws.content (backup m) w' ≡ laws.content (backup m) w
  backups-Replaced k b w w' (inl same) m = same (backup m)
  backups-Replaced k b w w' (inr replaced) m = replaced (backup m)

  -- A replacement by the target of a member.
  pub Recoverable-Replaced :
      (staged : Present Staged) (k : Member) (s : Staged) (b : B) (w w' : W)
      → Replaced k b w w'
      → entry k staged ≡ some s
      → IsTarget s b
      → Recoverable staged w
      → Recoverable staged w'
  Recoverable-Replaced staged k s b w w' replaced listed is r = record {
    either = Every-Replaced IsEither staged k s b w w' replaced listed (inr is) r.either;
    safe = elim r.safe [
      | inl t ↦ inl (Every-Replaced IsTarget staged k s b w w' replaced listed is t)
      | inr h ↦ inr (Every-backups staged w w' (backups-Replaced k b w w' replaced) h)
    ];
  }
