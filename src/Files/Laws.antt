-- ===== src/Files/Laws.antt =====
-- What the documented behaviour of the files says of one file.
use agent_personal_vault.Prelude.{ℕ, ◌≡◌, ◌∙◌, refl, sym, true, some}
use agent_personal_vault.Result.{ok}
use agent_personal_vault.Files.{
  vault, consent, audit, FileName, current, backup, next, journal, same_file, Files, FilesLaws,
}

pub same_file_refl : (n : FileName) → same_file n n ≡ true
same_file_refl (current vault) = refl
same_file_refl (current consent) = refl
same_file_refl (current audit) = refl
same_file_refl (backup vault) = refl
same_file_refl (backup consent) = refl
same_file_refl (backup audit) = refl
same_file_refl (next vault) = refl
same_file_refl (next consent) = refl
same_file_refl (next audit) = refl
same_file_refl journal = refl

module _ {W B : Type 0} (f : Files W B) (laws : FilesLaws f) where
  -- A file that was written holds what was written.
  pub written-content :
      (n : FileName) (b : B) (w : W)
      → (f.write_private_bytes n b w).0 ≡ ok tt
      → laws.content n (f.write_private_bytes n b w).1 ≡ some b
  written-content n b w e = laws.written n b w e n ∙ rw (same_file_refl n) refl

  -- What is read after a write is what was written.
  pub read-written :
      (n : FileName) (b raw : B) (limit : ℕ) (w : W)
      → (f.write_private_bytes n b w).0 ≡ ok tt
      → f.read_private_bytes n limit (f.write_private_bytes n b w).1 ≡ ok raw
      → raw ≡ b
  read-written n b raw limit w e r =
      let (there, _) = laws.read-content n limit _ raw r in
      some_inj (sym there ∙ written-content n b w e)
    where
      some_inj : {a b : B} → some a ≡ some b → a ≡ b
      some_inj h = cc
