-- ===== src/Migration/Restored.antt =====
-- `rollback_kdf_migration` of agent_personal_vault/kdf_migration.py from a ready journal: what it leaves
-- when it returns.
use agent_personal_vault.Prelude.{◌≡◌, ◌∙◌, sym, ap, subst, String, Option, none, some, &&-eq_true}
use agent_personal_vault.Result.{ok, >>=-eq_ok, require-eq_ok, ok_inj}
use agent_personal_vault.Exec.{
  Exec, continue-keeps, Returns, Returns-last, continue-Returns, Returns-step, Returns-at,
}
use agent_personal_vault.Files.{Member, current, Files, FilesLaws}
use agent_personal_vault.Migration.{Present, Staged}
use agent_personal_vault.Migration.Each.{each_entry}
use agent_personal_vault.Migration.Checks.{read_validated_backup, validated_original}
use agent_personal_vault.Migration.Rollback.{restore_member}
use agent_personal_vault.Migration.Loops.{entry}
use agent_personal_vault.Migration.Held.{CurrentIs, IsOriginal, CurrentIs-Replaced}
use agent_personal_vault.Migration.Kept.{write_private_bytes-Replaced}

module _ {W B : Type 0} (f : Files W B) (laws : FilesLaws f) where
  -- A restored file is the original.
  pub restore_member-Returns :
      (m : Member) (t : Staged × B) (w : W)
      → Returns (λ _ w'. CurrentIs f laws (IsOriginal f laws) m t.0 w') (restore_member f m t w)
  unfolding restore_member
  restore_member-Returns m t w = continue-Returns _ _ _ λ _ _. continue-Returns _ _ _ λ b reads_b.
      Returns-last _ λ _ passed. record {
        bytes = b;
        there = (laws.read-content (current m) _ _ b reads_b).0;
        holds = require-eq_ok _ _ passed;
      }

  read_validated_backup-IsOriginal :
      (m : Member) (s : Staged) (passphrase : String) (w : W) (b : B)
      → read_validated_backup f m s passphrase w ≡ ok b
      → IsOriginal f laws s b
  unfolding read_validated_backup
  read_validated_backup-IsOriginal m s passphrase w b e =
      let (_, _, e1) = >>=-eq_ok _ _ e in
      let (_, _, e2) = >>=-eq_ok _ _ e1 in
      let (original, _, e3) = >>=-eq_ok _ _ e2 in
      let (_, matches, e4) = >>=-eq_ok _ _ e3 in
      let (_, digest) = &&-eq_true _ _ (require-eq_ok _ _ matches) in
      subst (IsOriginal f laws s) (ok_inj e4) digest

  pub validated_original-IsOriginal :
      (passphrase : String) (m : Member) (s : Staged) (w : W) (t : Staged × B)
      → validated_original f passphrase m s w ≡ ok t
      → (s ≡ t.0) × IsOriginal f laws t.0 t.1
  unfolding validated_original
  validated_original-IsOriginal passphrase m s w t e =
      let (_, _, e1) = >>=-eq_ok _ _ e in
      let (_, _, e2) = >>=-eq_ok _ _ e1 in
      let (original, read, e3) = >>=-eq_ok _ _ e2 in
      let (_, _, e4) = >>=-eq_ok _ _ e3 in
      let (_, _, e5) = >>=-eq_ok _ _ e4 in
      (
        ap (λ x. x.0) (ok_inj e5),
        subst (λ x. IsOriginal f laws x.0 x.1) (ok_inj e5)
            (read_validated_backup-IsOriginal m s passphrase w original read),
      )

  -- A restoring of one member, or of none.
  abbrev pub restore_if : Member → Option (Staged × B) → Exec W (Option (Unit {0}))
  restore_if m o = each_entry (restore_member f m) o

  pub restore_if-Returns :
      (m : Member) (o : Option (Staged × B)) (t : Staged × B) (w : W)
      → o ≡ some t
      → Returns (λ _ w'. CurrentIs f laws (IsOriginal f laws) m t.0 w') (restore_if m o w)
  restore_if-Returns m none t w e = absurd (cc)
  restore_if-Returns m (some u) t w e =
      let u_t : u ≡ t = cc in
      Returns-step (restore_member f m u w) _ λ a w' r. record {
        post =
            subst (λ x. CurrentIs f laws (IsOriginal f laws) m x.0 w') u_t
              (Returns-at (restore_member-Returns m u w) r);
      }

  restore_member-state :
      (P : W → Type 0) (k : Member) (t : Staged × B) (w : W)
      → P (f.write_private_bytes (current k) t.1 w).1
      → P (restore_member f k t w).1
  unfolding restore_member
  restore_member-state P k t w after =
      continue-keeps P _ _ _ after (λ _ _. continue-keeps P _ _ _ after (λ _ _. after))

  module _ (staged : Present Staged) (originals : Present (Staged × B))
      (found : (m : Member) (t : Staged × B)
        → entry m originals ≡ some t
        → (entry m staged ≡ some t.0) × IsOriginal f laws t.0 t.1) where
    pub restored-keeps :
        (m : Member) (s : Staged)
        → entry m staged ≡ some s
        → (k : Member) (t : Option (Staged × B)) (w w' : W) {a : Option (Unit {0})}
        → entry k originals ≡ t
        → restore_if k t w ≡ (ok a, w')
        → CurrentIs f laws (IsOriginal f laws) m s w
        → CurrentIs f laws (IsOriginal f laws) m s w'
    restored-keeps m s here k none w w' at e c =
        subst (CurrentIs f laws (IsOriginal f laws) m s) (ap (λ x. x.1) e) c
    restored-keeps m s here k (some t) w w' at e c =
        let P : W → Type 0 = CurrentIs f laws (IsOriginal f laws) m s in
        let (listed, is) = found k t at in
        let after : P (restore_member f k t w).1 = restore_member-state P k t w (
          CurrentIs-Replaced f laws (IsOriginal f laws) m k s t.1 w _
            (write_private_bytes-Replaced f laws k t.1 w)
            (λ m_k.
              subst (λ x. IsOriginal f laws x t.1)
                (some_inj (sym listed ∙ ap (λ n. entry n staged) (sym m_k) ∙ here)) is)
            c) in
        subst P (ap (λ x. x.1) e) (continue-keeps P _ _ _ after (λ _ _. after))
      where
        some_inj : {x y : Staged} → some x ≡ some y → x ≡ y
        some_inj h = cc
