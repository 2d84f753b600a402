-- ===== src/Sidecar/Protects.antt =====
-- The protection that agent_personal_vault/sidecar_store.py finds, against the vault it is found in.
use agent_personal_vault.Prelude.{
  ◌≡◌, refl, sym, ◌⊎◌, inl, inr, String, Bool, true, false, Option, some, if◌then◌else◌,
}
use agent_personal_vault.Result.{ok, ok_inj, ◌>>=◌, >>=-eq_ok}
use agent_personal_vault.Python.Json.{Json}
use agent_personal_vault.Crypto.{EncryptionProfile, is_encrypted_payload, encryption_profile}
use agent_personal_vault.Files.{vault, current, Files}
use agent_personal_vault.Files.Load.{read_private_json}
use agent_personal_vault.Sidecar.{
  Protection, required_passphrase, vault_uses_encryption, validated_vault_passphrase, unprotected,
  protection_of, read_protection, sidecar_protection,
}
use agent_personal_vault.Sidecar.Profile.{vault_profile}

module _ {W B : Type 0} (f : Files W B) where
  -- A vault that is plain or missing.
  pub record Plain (passphrase : Option String) (w : W) (pr : Protection) : Type 0 where
    pub plain : vault_uses_encryption f w ≡ ok false
    pub same : pr ≡ unprotected f passphrase

  -- An encrypted vault, with its profile and the passphrase that opens it.
  pub record Protecting (passphrase : Option String) (w : W) (pr : Protection) : Type 0 where
    pub validated : String
    pub required : required_passphrase passphrase f.default_passphrase ≡ ok validated
    pub profile : EncryptionProfile
    pub profile_found : vault_profile f w ≡ ok (some profile)
    pub same : pr ≡ record { protect = true; passphrase = some validated; profile = some profile }

  uses-missing :
      (w : W)
      → f.private_file_exists (current vault) w ≡ ok false
      → vault_uses_encryption f w ≡ ok false
  unfolding vault_uses_encryption ◌>>=◌
  uses-missing w there = rw (there) refl

  uses-read :
      (w : W) (j : Json) (b : Bool)
      → f.private_file_exists (current vault) w ≡ ok true
      → read_private_json f (current vault) w ≡ ok j
      → is_encrypted_payload j ≡ ok b
      → vault_uses_encryption f w ≡ ok b
  unfolding vault_uses_encryption ◌>>=◌
  uses-read w j b there reads named = rw (there, reads, named) refl

  profile-read :
      (w : W) (j : Json) (p : EncryptionProfile)
      → f.private_file_exists (current vault) w ≡ ok true
      → read_private_json f (current vault) w ≡ ok j
      → is_encrypted_payload j ≡ ok true
      → encryption_profile f.cipher.float_equals j ≡ ok p
      → vault_profile f w ≡ ok (some p)
  unfolding vault_profile ◌>>=◌
  profile-read w j p there reads named profile = rw (there, reads, named, profile) refl

  required-validated :
      (j : Json) (explicit : Option String) (validated : String)
      → validated_vault_passphrase f j explicit ≡ ok validated
      → required_passphrase explicit f.default_passphrase ≡ ok validated
  unfolding validated_vault_passphrase
  required-validated j explicit validated e =
      let (pass, required, e1) = >>=-eq_ok _ _ e in
      let (_, _, e2) = >>=-eq_ok _ _ e1 in
      let (_, _, e3) = >>=-eq_ok _ _ e2 in
      let (_, _, e4) = >>=-eq_ok _ _ e3 in rw (sym (ok_inj e4)) required

  module _ (passphrase : Option String) (w : W) (pr : Protection) where
    of_payload :
        (j : Json) (named : Bool)
        → f.private_file_exists (current vault) w ≡ ok true
        → read_private_json f (current vault) w ≡ ok j
        → is_encrypted_payload j ≡ ok named
        → protection_of f passphrase j named ≡ ok pr
        → Plain passphrase w pr ⊎ Protecting passphrase w pr
    of_payload j false there reads named e =
        inl (record { plain = uses-read w j false there reads named; same = sym (ok_inj e) })
    of_payload j true there reads named e =
        let (validated, valid, e1) = >>=-eq_ok _ _ e in
        let (p, profile, e2) = >>=-eq_ok _ _ e1 in
        inr (record {
          validated = validated;
          required = required-validated j passphrase validated valid;
          profile = p;
          profile_found = profile-read w j p there reads named profile;
          same = sym (ok_inj e2);
        })

    of_file :
        (exists : Bool)
        → f.private_file_exists (current vault) w ≡ ok exists
        → (if exists then read_protection f passphrase w else ok (unprotected f passphrase)) ≡ ok pr
        → Plain passphrase w pr ⊎ Protecting passphrase w pr
    of_file false there e = inl (record { plain = uses-missing w there; same = sym (ok_inj e) })
    of_file true there e =
        let (j, reads, e1) = >>=-eq_ok _ _ e in
        let (named, is, e2) = >>=-eq_ok _ _ e1 in of_payload j named there reads is e2

    -- What the protection says is so.
    pub sidecar_protection-cases :
        sidecar_protection f passphrase w ≡ ok pr
        → Plain passphrase w pr ⊎ Protecting passphrase w pr
    unfolding sidecar_protection
    sidecar_protection-cases e =
        let (exists, there, e1) = >>=-eq_ok _ _ e in of_file exists there e1
