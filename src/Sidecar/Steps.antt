-- ===== src/Sidecar/Steps.antt =====
-- What the writes of agent_personal_vault/sidecar_store.py have found when they return.
use agent_personal_vault.Prelude.{
  ◌≡◌, ◌≤◌, refl, String, Bool, true, false, Option, some, ltb→ge, if◌then◌else◌,
}
use agent_personal_vault.Result.{ok, ok_inj, raise_if-eq_ok, require-eq_ok}
use agent_personal_vault.Exec.{
  pure, Returns, continue-Returns, Returns-last, Returns-each, Returns-step, Returns-at,
}
use agent_personal_vault.Python.Json.{Json}
use agent_personal_vault.Limits.{max_private_json_bytes}
use agent_personal_vault.Crypto.{EncryptionProfile}
use agent_personal_vault.Crypto.Store.{encrypt_sidecar_payload}
use agent_personal_vault.Files.{journal, FileName, Files}
use agent_personal_vault.Guard.Blocked.{kdf_write_guard-Returns}
use agent_personal_vault.Sidecar.{Protection, required_passphrase, sidecar_protection}
use agent_personal_vault.Sidecar.Profile.{vault_profile, choose_profile}
use agent_personal_vault.Sidecar.Write.{
  PreparedSidecarWrite, same_profile, encode_sidecar, plain_sidecar, prepare_sidecar_write,
  check_size, encode_protected, commit_guarded, write_guarded, commit_prepared_sidecar,
  write_sidecar_bytes,
}

module _ {W B : Type 0} (f : Files W B) where
  -- A commit that returned has found no journal and the profile that it expects.
  pub record Committed (prepared : PreparedSidecarWrite B) (w w' : W) : Type 0 where
    pub complete : f.private_file_exists journal w ≡ ok false
    pub found : Option EncryptionProfile
    pub profile : vault_profile f w ≡ ok found
    pub same : same_profile found prepared.expected_profile ≡ true
    pub wrote : (f.write_private_bytes prepared.path prepared.payload w).0 ≡ ok tt
    pub after : w' ≡ (f.write_private_bytes prepared.path prepared.payload w).1

  pub commit-Committed :
      (active : Bool) (prepared : PreparedSidecarWrite B) (w : W)
      → Returns (λ _ w'. Committed prepared w w') (commit_prepared_sidecar f active prepared w)
  unfolding commit_prepared_sidecar
  commit-Committed active prepared w =
      kdf_write_guard-Returns f active (λ _. commit_guarded f prepared) w
        λ complete. continue-Returns _ _ _ λ found profile. continue-Returns _ _ _ λ _ same.
          Returns-last _ λ _ wrote. record {
            complete = complete;
            found = found;
            profile = profile;
            same = require-eq_ok _ _ same;
            wrote = wrote;
            after = refl;
          }

  -- An encoded sidecar is the text of an envelope that an encryption of its payload returned.
  pub record Encoded (path : FileName) (kind : String) (passphrase : Option String)
      (p : EncryptionProfile) (payload : B) (w w' : W) (prepared : PreparedSidecarWrite B)
      : Type 0 where
    pub selected : String
    pub required : required_passphrase passphrase f.default_passphrase ≡ ok selected
    pub salt : B
    pub drew_salt : (f.urandom 16 w).0 ≡ salt
    pub nonce : B
    pub drew_nonce : (f.urandom 12 (f.urandom 16 w).1).0 ≡ nonce
    pub envelope : Json
    pub encrypted :
        encrypt_sidecar_payload f.cipher payload selected kind p salt nonce ≡ ok envelope
    pub named : prepared.path ≡ path
    pub text : prepared.payload ≡ f.dumps_indented envelope
    pub expected : prepared.expected_profile ≡ some p
    pub size : f.cipher.len (f.dumps_indented envelope) ≤ max_private_json_bytes
    pub after : w' ≡ (f.urandom 12 (f.urandom 16 w).1).1

  pub encode-Encoded :
      (path : FileName) (payload : B) (kind : String) (passphrase : Option String)
      (p : EncryptionProfile) (w : W)
      → Returns
          (λ prepared w'. Encoded path kind passphrase p payload w w' prepared)
          (encode_sidecar f path payload kind passphrase p w)
  unfolding encode_sidecar
  encode-Encoded path payload kind passphrase p w = continue-Returns _ _ _ λ selected required.
      continue-Returns (ok _) _ _ λ salt drew_salt. continue-Returns (ok _) _ _ λ nonce drew_nonce.
        continue-Returns _ _ _ λ envelope encrypted. continue-Returns _ _ _ λ _ _.
          continue-Returns _ _ _ λ _ small. record {
            post = record {
              selected = selected;
              required = required;
              salt = salt;
              drew_salt = ok_inj drew_salt;
              nonce = nonce;
              drew_nonce = ok_inj drew_nonce;
              envelope = envelope;
              encrypted = encrypted;
              named = refl;
              text = refl;
              expected = refl;
              size = ltb→ge _ _ (raise_if-eq_ok _ _ small);
              after = refl;
            };
          }

  -- What a preparation returns: the payload as it is, or an encoded sidecar.
  abbrev pub Prepared :
      FileName
      → B
      → String
      → Bool
      → Option String
      → Option EncryptionProfile
      → W
      → PreparedSidecarWrite B
      → W
      → Type 0
  Prepared path payload kind true passphrase profile w prepared w' =
      (p : EncryptionProfile) × (choose_profile f profile w ≡ ok p)
      × Encoded path kind passphrase p payload w w' prepared
  Prepared path payload kind false passphrase profile w prepared w' =
      (f.cipher.len payload ≤ max_private_json_bytes)
      × (prepared ≡ plain_sidecar f path payload)
      × (w' ≡ w)

  pub prepare-Prepared :
      (path : FileName) (payload : B) (kind : String) (encrypted : Bool)
      (passphrase : Option String) (profile : Option EncryptionProfile) (w : W)
      → Returns
          (Prepared path payload kind encrypted passphrase profile w)
          (prepare_sidecar_write f path payload kind encrypted passphrase profile w)
  unfolding prepare_sidecar_write
  prepare-Prepared path payload kind encrypted passphrase profile w =
      continue-Returns _ _ _ λ _ small. split small encrypted
    where
      split :
          {u : Unit {0}} (small : check_size f payload ≡ ok u) (encrypted : Bool)
          → Returns (Prepared path payload kind encrypted passphrase profile w) (
              (if encrypted
                  then encode_protected f path payload kind passphrase profile
                  else pure (plain_sidecar f path payload))
                w)
      split small true = continue-Returns _ _ _ λ p chosen. Returns-each _ λ prepared w' e.
          (p, chosen, Returns-at (encode-Encoded path payload kind passphrase p w) e)
      split small false = record { post = (ltb→ge _ _ (raise_if-eq_ok _ _ small), refl, refl) }

  -- A write that returned went through its steps.
  pub record Steps (path : FileName) (payload : B) (kind : String) (passphrase : Option String)
      (w w' : W) : Type 0 where
    pub protection : Protection
    pub protects : sidecar_protection f passphrase w ≡ ok protection
    pub prepared : PreparedSidecarWrite B
    pub between : W
    pub prepares :
        Prepared path payload kind protection.protect protection.passphrase protection.profile w
          prepared between
    pub committed : Committed prepared between w'

  pub write-Steps :
      (active : Bool) (path : FileName) (payload : B) (kind : String) (passphrase : Option String)
      (w : W)
      → Returns
          (λ _ w'. Steps path payload kind passphrase w w')
          (write_sidecar_bytes f active path payload kind passphrase w)
  unfolding write_sidecar_bytes
  write-Steps active path payload kind passphrase w =
      kdf_write_guard-Returns f active (write_guarded f path payload kind passphrase) w λ _.
        continue-Returns _ _ _ λ protection protects.
          let prepares =
            prepare-Prepared path payload kind protection.protect protection.passphrase
              protection.profile w in
          Returns-step _ _ λ prepared between e. Returns-each _ λ _ w' e'. record {
            protection = protection;
            protects = protects;
            prepared = prepared;
            between = between;
            prepares = Returns-at prepares e;
            committed = Returns-at (commit-Committed true prepared between) e';
          }
