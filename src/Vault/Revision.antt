-- ===== src/Vault/Revision.antt =====
-- What a write of the vault leaves in the file.
use agent_personal_vault.Prelude.{
  ℕ, ◌+◌, String, ◌≡◌, ◌∙◌, refl, sym, ap, Bool, true, false, Option, none, some, ◌||◌, not, arith,
  nat_eq, if◌then◌else◌,
}
use mathlib.Core.Path.{ap₂}
use agent_personal_vault.Result.{ok_inj, ok, conflict_error, raise_if, ◌>>=◌}
use agent_personal_vault.Exec.{Returns, continue-Returns, Returns-at, Returns-last}
use agent_personal_vault.Python.Json.{Json, obj, Fields, get}
use agent_personal_vault.Python.Sorted.{sorted, sorted_fields, map_sorted, get-sorted_fields}
use agent_personal_vault.Vault.SortedShape.{sorted_fields-IsStore}
use agent_personal_vault.Platform.{Platform}
use agent_personal_vault.Crypto.{
  EncryptionProfile, latest_encryption_profile, is_encrypted_payload, encryption_profile,
}
use agent_personal_vault.Vault.Host.{VaultHost, VaultHostLaws}
use agent_personal_vault.Vault.Shape.{validate_store_shape, store_revision, fields_of}
use agent_personal_vault.Vault.Payload.{
  usable, or_raise, write_needs_passphrase, open_payload, open_plain, open_encrypted, find_existing,
  find_file,
}
use agent_personal_vault.Vault.Store.{
  WriteOptions, or_else, is_some, next_store, seal, encrypt_with, write_store,
}
use agent_personal_vault.Vault.NextShape.{
  IsStore, IsStore-store_revision, store_revision-IsStore, next_store-IsStore, next_store-plain,
  get_fields-next_store, returned_store-IsStore,
}

module _ {W : Type 0} (h : VaultHost W) (passphrase : Option String) where
  -- The payload opens to the store.
  abbrev pub Opens : Json → Fields → Option EncryptionProfile → Type 0
  Opens payload store profile =
      open_payload h write_needs_passphrase passphrase payload ≡ ok (store, profile)

  IsStore-validate_store_shape :
      (store : Fields) (n : ℕ) → IsStore store n → validate_store_shape (obj store) ≡ ok store
  unfolding validate_store_shape ◌>>=◌
  IsStore-validate_store_shape store n is = rw (is.schema, is.fields, is.revision) refl

  Opens-plain :
      (store : Fields) (n : ℕ)
      → IsStore store n
      → is_encrypted_payload (obj store) ≡ ok false
      → Opens (obj store) store none
  unfolding open_payload open_plain ◌>>=◌
  Opens-plain store n is plain = rw (plain, IsStore-validate_store_shape store n is) refl

  Opens-encrypted :
      (payload : Json) (store : Fields) (n : ℕ) (profile : EncryptionProfile) (pass : String)
      → IsStore store n
      → or_raise write_needs_passphrase (usable passphrase (h.default_passphrase)) ≡ ok pass
      → is_encrypted_payload payload ≡ ok true
      → encryption_profile (h.float_equals) payload ≡ ok profile
      → h.decrypt payload pass ≡ ok (obj store)
      → Opens payload store (some profile)
  unfolding open_payload open_encrypted ◌>>=◌
  Opens-encrypted payload store n profile pass is p e f d =
      rw (e, f, p, d, IsStore-validate_store_shape store n is) refl

  Opens-find_existing :
      (payload : Json) (store : Fields) (profile : Option EncryptionProfile) (n : ℕ) (w : W)
      → h.vault_exists w ≡ ok true
      → h.read_vault w ≡ ok payload
      → Opens payload store profile
      → IsStore store n
      → find_existing h passphrase w ≡ ok (profile, n)
  unfolding find_existing find_file ◌>>=◌
  Opens-find_existing payload store profile n w e r o is =
      rw (e, r, o, IsStore-store_revision store n is) refl

-- The profile that a write owes the file: none leaves the store in clear.
abbrev pub due_if : Bool → WriteOptions → Option EncryptionProfile → Option EncryptionProfile
due_if true options existing =
    some (or_else (options.profile) (or_else existing latest_encryption_profile))
due_if false options existing = none

abbrev pub due_profile : WriteOptions → Option EncryptionProfile → Option EncryptionProfile
due_profile options existing =
    due_if (or_else (options.encrypted) (is_some existing)) options existing

-- What is read of a dict that was written: an envelope puts its keys in order.
abbrev pub as_read : Option EncryptionProfile → Fields → Fields
as_read none d = d
as_read (some _) d = sorted_fields d

get_fields-as_read :
    (profile : Option EncryptionProfile) (store fields : Fields)
    → get "fields" store ≡ some (obj fields)
    → get "fields" (as_read profile store) ≡ some (obj (as_read profile fields))
unfolding sorted
get_fields-as_read none store fields e = e
get_fields-as_read (some _) store fields e = get-sorted_fields "fields" store ∙ ap map_sorted e

as_read-IsStore :
    (profile : Option EncryptionProfile) (store : Fields) (n : ℕ)
    → IsStore store n
    → IsStore (as_read profile store) n
as_read-IsStore none store n is = is
as_read-IsStore (some _) store n is = sorted_fields-IsStore store n is

-- What a write of `store` that has replaced the file has done, from `w` to `w'`.
pub record Replaced {W : Type 0} (h : VaultHost W) (options : WriteOptions) (store : Fields)
    (w w' : W) : Type 0 where
  pub revision : ℕ
  pub expected : store_revision store ≡ ok revision
  pub profile_before : Option EncryptionProfile
  pub before : find_existing h (options.passphrase) w ≡ ok (profile_before, revision)
  pub fields : Fields
  pub has_fields : fields_of store ≡ ok fields
  pub payload : Json
  pub stored : Fields
  pub content : h.read_vault w' ≡ ok payload
  pub opens : Opens h (options.passphrase) payload stored (due_profile options profile_before)
  pub stored_fields :
      get "fields" stored ≡ some (obj (as_read (due_profile options profile_before) fields))
  pub after :
      find_existing h (options.passphrase) w'
      ≡ ok (due_profile options profile_before, revision + 1)

-- What a write of `store` that returned has done, from `w` to `w'`.
pub record Written {W : Type 0} (h : VaultHost W) (options : WriteOptions) (store : Fields) (w : W)
    (store' : Fields) (w' : W) : Type 0 where
  pub replaced : Replaced h options store w w'
  pub returned : store_revision store' ≡ ok (replaced.revision + 1)

module _ {W : Type 0} (p : Platform) (h : VaultHost W) (laws : VaultHostLaws h) where
  -- What `seal` gives opens to the store that it was given, under the profile that is due.
  abbrev Sealed : WriteOptions → Fields → Option EncryptionProfile → Json → W → Type 0
  Sealed options next profile payload _ =
      Opens h (options.passphrase) payload (as_read profile next) profile

  encrypt_with-Sealed :
      (next : Fields) (n : ℕ) (options : WriteOptions) (existing : Option EncryptionProfile) (w : W)
      → IsStore next n
      → Returns
          (Sealed options next (due_if true options existing))
          (encrypt_with p h next options existing w)
  encrypt_with-Sealed next n options existing w is = continue-Returns _ _ _ λ pass e.
      Returns-last _ λ payload sealed.
        let profile = or_else (options.profile) (or_else existing latest_encryption_profile) in
        let (encrypted, named, opened) =
          laws.decrypt-encrypt next pass (options.allow_weak || is_some existing) profile w payload
            sealed in
        Opens-encrypted h (options.passphrase) payload (sorted_fields next) n profile pass
          (sorted_fields-IsStore next n is) e encrypted named opened

  seal-Sealed :
      (next : Fields) (n : ℕ) (options : WriteOptions) (existing : Option EncryptionProfile) (w : W)
      → IsStore next n
      → is_encrypted_payload (obj next) ≡ ok false
      → Returns
          (Sealed options next (due_profile options existing))
          (seal p h next options existing w)
  unfolding seal
  seal-Sealed next n options existing w is plain =
      split (or_else (options.encrypted) (is_some existing))
    where
      split :
          (b : Bool)
          → Returns
              (Sealed options next (due_if b options existing))
              ((if b then encrypt_with p h next options existing else (λ w. (ok (obj next), w))) w)
      split true = encrypt_with-Sealed next n options existing w is
      split false = record { post = Opens-plain h (options.passphrase) next n is plain }

  seal-Opens :
      (next : Fields) (n : ℕ) (options : WriteOptions) (existing : Option EncryptionProfile) (w : W)
      → IsStore next n
      → is_encrypted_payload (obj next) ≡ ok false
      → {payload : Json} → (seal p h next options existing w).0 ≡ ok payload
      → Opens h
          (options.passphrase)
          payload
          (as_read (due_profile options existing) next)
          (due_profile options existing)
  seal-Opens next n options existing w is plain e =
      Returns-at (seal-Sealed next n options existing w is plain)
        (ap (λ r. (r, (seal p h next options existing w).1)) e)

  pub current-expected :
      (current expected : ℕ)
      → raise_if (not (nat_eq current expected)) (conflict_error "vault changed; reload and retry")
        ≡ ok tt
      → current ≡ expected
  current-expected current expected e = ground arith

  -- The steps of a write up to the replacement, and what the file reads as behind it.
  pub steps-Replaced :
      (store : Fields) (options : WriteOptions) (w w1 w' : W)
      → is_encrypted_payload (obj store) ≡ ok false
      → (expected : ℕ) → store_revision store ≡ ok expected
      → (found : Option EncryptionProfile × ℕ) → find_existing h (options.passphrase) w ≡ ok found
      → found.1 ≡ expected
      → (fields : Fields) → fields_of store ≡ ok fields
      → (now : String) (payload : Json)
      → (seal p h (next_store store fields now (found.1 + 1)) options (found.0) w1).0 ≡ ok payload
      → h.vault_exists w' ≡ ok true
      → h.read_vault w' ≡ ok payload
      → Replaced h options store w w'
  steps-Replaced store options w w1 w' plain expected e found f at_revision fields g now payload s
        exists content =
      let is = store_revision-IsStore store expected e in
      let next = next_store-IsStore store fields now expected (found.1 + 1) is g in
      let due : Option EncryptionProfile = due_profile options (found.0) in
      let opens =
        seal-Opens _ _ options (found.0) _ next
          (next_store-plain store fields now (found.1 + 1) plain) s in
      record {
        revision = found.1;
        expected = e ∙ ap ok (sym at_revision);
        profile_before = found.0;
        before = f;
        fields = fields;
        has_fields = g;
        payload = payload;
        stored = as_read due (next_store store fields now (found.1 + 1));
        content = content;
        opens = opens;
        stored_fields =
            get_fields-as_read due _ fields (get_fields-next_store store fields now (found.1 + 1));
        after =
            Opens-find_existing h (options.passphrase) payload _ (due_profile options (found.0))
              (found.1 + 1) _ exists content opens (as_read-IsStore due _ _ next);
      }

  pub write_store-Written :
      (store : Fields) (options : WriteOptions) (w : W)
      → is_encrypted_payload (obj store) ≡ ok false
      → Returns (Written h options store w) (write_store p h store options w)
  unfolding write_store
  write_store-Written store options w plain = continue-Returns _ _ _ λ _ _.
      continue-Returns _ _ _ λ expected e. continue-Returns _ _ _ λ _ _.
        continue-Returns _ _ _ λ _ _. continue-Returns _ _ _ λ found f.
          continue-Returns _ _ _ λ _ same. continue-Returns _ _ _ λ fields g.
            continue-Returns _ _ _ λ now _. continue-Returns _ _ _ λ payload s.
              continue-Returns _ _ _ λ _ written. record {
                post =
                    let (exists, content) = laws.vault_written payload _ written in
                    let is = store_revision-IsStore store expected e in
                    let current = current-expected (found.1) expected same in
                    let replaced =
                      steps-Replaced store options w _ _ plain expected e found f current fields g
                        now payload s exists content in
                    record {
                      replaced = replaced;
                      returned =
                          IsStore-store_revision _ _
                            (returned_store-IsStore store now expected (found.1 + 1) is)
                          ∙ ap (λ n. ok (n + 1)) (current ∙ ok_inj (sym e ∙ replaced.expected));
                    };
              }

  -- A write that returned found the file at the revision that the store was read at, and left it at the
  -- next one, readable with the same passphrase and under the profile that is due; the file has the
  -- fields of the store, in the order of their keys if it is encrypted, and the store that the caller goes on with has the new revision.
  pub write_store_saves :
      (store : Fields) (options : WriteOptions) (w w' : W) (store' : Fields)
      → is_encrypted_payload (obj store) ≡ ok false
      → write_store p h store options w ≡ (ok store', w')
      → Written h options store w store' w'
  write_store_saves store options w w' store' plain e =
      Returns-at (write_store-Written store options w plain) e

  -- A write that is not told otherwise leaves an encrypted file encrypted, under the same profile.
  pub write_store_keeps_profile :
      (store : Fields) (options : WriteOptions) (w w' : W) (store' : Fields)
      (profile : EncryptionProfile) (r : ℕ)
      → options.encrypted ≡ none
      → options.profile ≡ none
      → is_encrypted_payload (obj store) ≡ ok false
      → find_existing h (options.passphrase) w ≡ ok (some profile, r)
      → write_store p h store options w ≡ (ok store', w')
      → find_existing h (options.passphrase) w' ≡ ok (some profile, r + 1)
  write_store_keeps_profile store options w w' store' profile r unasked unset plain found e =
      let written = (write_store_saves store options w w' store' plain e).replaced in
      let same = ok_inj (sym (written.before) ∙ found) in
      let due : due_profile options (written.profile_before) ≡ some profile =
        rw (unasked, unset, ap (λ x. x.0) same) refl in
      written.after ∙ ap₂ (λ o n. ok (o, n + 1)) due (ap (λ x. x.1) same)
