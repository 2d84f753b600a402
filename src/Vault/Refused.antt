-- ===== src/Vault/Refused.antt =====
-- What a write of the vault that raises leaves in the file.
use agent_personal_vault.Prelude.{
  String, ◌≡◌, ◌∙◌, refl, subst, ◌⊎◌, inl, inr, Bool, true, false, Option, ◌||◌, if◌then◌else◌,
}
use agent_personal_vault.Result.{Error, Result, ok, err}
use agent_personal_vault.Exec.{Exec, continue}
use agent_personal_vault.Python.Json.{obj, Fields}
use agent_personal_vault.Platform.{Platform}
use agent_personal_vault.Crypto.{EncryptionProfile, is_encrypted_payload, latest_encryption_profile}
use agent_personal_vault.Vault.Host.{VaultHost, VaultHostLaws, SameVault}
use agent_personal_vault.Vault.Payload.{
  usable, or_raise, write_needs_passphrase, find_existing, find_file,
}
use agent_personal_vault.Vault.Revision.{Replaced, current-expected, steps-Replaced}
use agent_personal_vault.Vault.Store.{
  WriteOptions, or_else, is_some, seal, encrypt_with, write_store,
}

module _ {W : Type 0} (h : VaultHost W) where
  pub SameVault-refl : (w : W) → SameVault h w w
  SameVault-refl w = record { exists = refl; content = refl }

  pub SameVault-trans : {w w' w'' : W} → SameVault h w w' → SameVault h w' w'' → SameVault h w w''
  SameVault-trans a b = record { exists = b.exists ∙ a.exists; content = b.content ∙ a.content }

  -- What `write_store` finds depends on the file alone.
  pub find_existing-SameVault :
      (passphrase : Option String) {w w' : W}
      → SameVault h w w'
      → find_existing h passphrase w' ≡ find_existing h passphrase w
  unfolding find_existing find_file
  find_existing-SameVault passphrase s = rw (s.exists, s.content) refl

-- What holds of the state if the step has raised.
abbrev OnError : {W A : Type 0} → (W → Type 0) → Result A × W → Type 0
OnError Q (ok a, w) = Unit
OnError Q (err e, w) = Q w

pub record Raises {W A : Type 0} (Q : W → Type 0) (r : Result A × W) : Type 0 where
  pub post : OnError Q r

continue-Raises :
    {W A B : Type 0} {Q : W → Type 0} (r : Result A) (w : W) (f : A → Exec W B)
    → ((e : Error) → r ≡ err e → Q w)
    → ((a : A) → r ≡ ok a → Raises Q (f a w))
    → Raises Q (continue r w f)
unfolding continue
continue-Raises (ok a) w f raised returned = returned a refl
continue-Raises (err e) w f raised returned = record { post = raised e refl }

pub Raises-at :
    {W A : Type 0} {Q : W → Type 0} {w' : W} {r : Result A × W} {e : Error}
    → Raises Q r
    → r ≡ (err e, w')
    → Q w'
Raises-at {Q = Q} f eq = subst (OnError Q) eq f.post

module _ {W : Type 0} (p : Platform) (h : VaultHost W) (laws : VaultHostLaws h) where
  encrypt_with-SameVault :
      (next : Fields) (options : WriteOptions) (existing : Option EncryptionProfile) (w : W)
      → SameVault h w (encrypt_with p h next options existing w).1
  unfolding continue
  encrypt_with-SameVault next options existing w =
      split (or_raise write_needs_passphrase (usable (options.passphrase) (h.default_passphrase)))
    where
      weak : Bool
      weak = options.allow_weak || is_some existing

      profile : EncryptionProfile
      profile = or_else (options.profile) (or_else existing latest_encryption_profile)

      split :
          (r : Result String)
          → SameVault h w (continue r w (λ pass. h.encrypt next pass weak profile)).1
      split (ok pass) = laws.encrypt-vault next pass weak profile w
      split (err e) = SameVault-refl h w

  seal-SameVault :
      (next : Fields) (options : WriteOptions) (existing : Option EncryptionProfile) (w : W)
      → SameVault h w (seal p h next options existing w).1
  unfolding seal
  seal-SameVault next options existing w = split (or_else (options.encrypted) (is_some existing))
    where
      split :
          (b : Bool)
          → SameVault h w
              ((if b then encrypt_with p h next options existing else (λ w. (ok (obj next), w)))
                w).1
      split true = encrypt_with-SameVault next options existing w
      split false = SameVault-refl h w

  abbrev Unfinished : Fields → WriteOptions → W → W → Type 0
  Unfinished store options w w' = SameVault h w w' ⊎ Replaced h options store w w'

  write_store-Raises :
      (store : Fields) (options : WriteOptions) (w : W)
      → is_encrypted_payload (obj store) ≡ ok false
      → Raises (Unfinished store options w) (write_store p h store options w)
  unfolding write_store
  write_store-Raises store options w plain =
      let same : Unfinished store options w w = inl (SameVault-refl h w) in
      continue-Raises _ _ _ (λ _ _. same)
        λ _ _.
          continue-Raises _ _ _ (λ _ _. same)
            λ expected e.
              continue-Raises _ _ _ (λ _ _. same)
                λ _ _.
                  continue-Raises _ _ _ (λ _ _. same)
                    λ _ _.
                      continue-Raises _ _ _ (λ _ _. same)
                        λ found f.
                          continue-Raises _ _ _ (λ _ _. same)
                            λ _ current.
                              continue-Raises _ _ _ (λ _ _. same)
                                λ fields g.
                                  continue-Raises _ _ _ (λ _ _. inl (laws.now-vault w))
                                    λ now _.
                                      let sealed : (next : Fields)
                                          → SameVault h w
                                              (seal p h next options (found.0) (h.now w).1).1 =
                                        λ next.
                                          SameVault-trans h (laws.now-vault w)
                                            (seal-SameVault next options (found.0) _) in
                                      continue-Raises _ _ _ (λ _ _. inl (sealed _))
                                        λ payload s.
                                          continue-Raises _ _ _
                                            (λ x raised.
                                              elim (laws.vault_raised payload _ x raised) [
                                                | inl kept ↦ inl (SameVault-trans h (sealed _) kept)
                                                | inr (exists, content) ↦ inr (
                                                    steps-Replaced p h laws store options w _ _
                                                      plain expected e found f
                                                      (current-expected p h laws (found.1) expected
                                                        current)
                                                      fields g now payload s exists content)
                                              ])
                                            λ _ _. record { post = tt }

  -- A write of a store that is not itself an encrypted payload, and that raises, whatever the error is,
  -- has left the vault file as it was, or has replaced it as a write that returns does: it found the
  -- file at the revision that the store was read at and left it at the next one, with the fields of the
  -- store, readable with the same passphrase and under the profile that is due.
  pub write_store_refused :
      (store : Fields) (options : WriteOptions) (w w' : W) (e : Error)
      → is_encrypted_payload (obj store) ≡ ok false
      → write_store p h store options w ≡ (err e, w')
      → SameVault h w w' ⊎ Replaced h options store w w'
  write_store_refused store options w w' e plain raised =
      Raises-at (write_store-Raises store options w plain) raised
