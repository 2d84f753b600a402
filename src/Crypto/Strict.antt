-- ===== src/Crypto/Strict.antt =====
-- Which envelopes crypto_store.py decrypts: those with a supported profile's own costs and with no
-- other field, of the kind that is asked for.
use agent_personal_vault.Prelude.{
  if◌then◌else◌, ℕ, String, ◌≡◌, ◌≢◌, refl, sym, ap, ◌∙◌, subst, inl, inr, Bool, true, false,
  Option, none, some,
}
use agent_personal_vault.Result.{Error, ok, err, >>=-eq_ok, require-eq_ok, ok_inj, Result-cases}
use agent_personal_vault.Python.Json.{Json, str, obj, Fields}
use agent_personal_vault.Crypto.{
  EncryptionProfile, legacy_v1_profile, argon2id_v2_profile, payload_profile,
}
use agent_personal_vault.Crypto.Equal.{profile_eq, is_supported}
use agent_personal_vault.Crypto.Cipher.{Cipher}
use agent_personal_vault.Crypto.Envelope.{is_some}
use agent_personal_vault.Crypto.Codec.{Parts, validate_envelope, check_envelope}
use agent_personal_vault.Crypto.Store.{
  encrypt_sidecar_payload, decrypt_store_payload, decrypt_sidecar_payload,
}
use agent_personal_vault.Crypto.Sealing.{encrypt_sidecar-kind}
use agent_personal_vault.Crypto.Allowed.{Allowed, has_parameters-Allowed}

chosen :
    (a b : Bool) (p : EncryptionProfile) (raised : Error)
    → (if a then ok legacy_v1_profile else if b then ok argon2id_v2_profile else err raised) ≡ ok p
    → is_supported p ≡ true
unfolding profile_eq
chosen true b p raised e = subst (λ q. is_supported q ≡ true) (ok_inj e) refl
chosen false true p raised e = subst (λ q. is_supported q ≡ true) (ok_inj e) refl
chosen false false p raised e = absurd (cc)

-- A payload names a supported profile, if it names one.
payload_profile-supported :
    (float_equals : String → ℕ → Bool) (sidecar : Bool) (payload : Json) (p : EncryptionProfile)
    → payload_profile float_equals sidecar payload ≡ ok p
    → is_supported p ≡ true
unfolding payload_profile
payload_profile-supported float_equals sidecar (obj d) p e = chosen _ _ p _ e
payload_profile-supported float_equals sidecar _ p e = absurd (cc)

kind_inj : {k l : String} → some (str k) ≡ some (str l) → k ≡ l
kind_inj e = cc

-- An envelope that passes the checks has the fields of a supported profile.
pub record Accepted (kind : Option String) (payload : Json) : Type 0 where
  pub fields : Fields
  pub payload_fields : payload ≡ obj fields
  pub profile : EncryptionProfile
  pub supported : is_supported profile ≡ true
  pub allowed : Allowed kind profile fields

module _ {B : Type 0} (c : Cipher B) where
  validate-Accepted :
      (kind : Option String) (payload : Json) (parts : Parts B)
      → validate_envelope c kind payload ≡ ok parts
      → Accepted kind payload
  unfolding validate_envelope check_envelope
  validate-Accepted kind (obj d) parts e =
      let (p, named, e1) = >>=-eq_ok _ _ e in
      let (_, tests, _) = >>=-eq_ok _ _ e1 in
      record {
        fields = d;
        payload_fields = refl;
        profile = p;
        supported = payload_profile-supported c.float_equals (is_some kind) (obj d) p named;
        allowed = has_parameters-Allowed kind p d (require-eq_ok _ _ tests);
      }
  validate-Accepted kind _ parts e = absurd (cc)

  -- A payload that decrypts as a store, under any passphrase, is an object with the fields of one of
  -- the two supported profiles: the storage name, version, key derivation and costs of the profile, the
  -- one cipher, and no field that the profile does not have.
  pub decrypt_store_payload-Accepted :
      (payload : Json) (passphrase : String) (store : Json)
      → decrypt_store_payload c payload passphrase ≡ ok store
      → Accepted none payload
  unfolding decrypt_store_payload
  decrypt_store_payload-Accepted payload passphrase store e =
      let (_, _, e1) = >>=-eq_ok _ _ e in
      let (_, _, e2) = >>=-eq_ok _ _ e1 in
      let (_, _, e3) = >>=-eq_ok _ _ e2 in
      let (parts, valid, _) = >>=-eq_ok _ _ e3 in validate-Accepted none payload parts valid

  decrypt_sidecar_payload-Accepted :
      (payload : Json) (passphrase kind : String) (plaintext : B)
      → decrypt_sidecar_payload c payload passphrase kind ≡ ok plaintext
      → Accepted (some kind) payload
  unfolding decrypt_sidecar_payload
  decrypt_sidecar_payload-Accepted payload passphrase kind plaintext e =
      let (_, _, e1) = >>=-eq_ok _ _ e in
      let (_, _, e2) = >>=-eq_ok _ _ e1 in
      let (parts, valid, _) = >>=-eq_ok _ _ e2 in validate-Accepted (some kind) payload parts valid

  -- If a sidecar's envelope was made as one kind, then decryption as another kind raises, under every
  -- passphrase.
  pub decrypt-other_kind :
      (plaintext : B) (passphrase kind : String) (p : EncryptionProfile) (salt nonce : B) (j : Json)
      (other : String) (given : String)
      → encrypt_sidecar_payload c plaintext passphrase kind p salt nonce ≡ ok j
      → kind ≢ other
      → (e : Error) × (decrypt_sidecar_payload c j given other ≡ err e)
  decrypt-other_kind plaintext passphrase kind p salt nonce j other given e differs =
      elim (Result-cases (decrypt_sidecar_payload c j given other)) [
        | inl raised ↦ raised
        | inr (b, decrypted) ↦
            let a = decrypt_sidecar_payload-Accepted j given other b decrypted in
            let made =
              encrypt_sidecar-kind c plaintext passphrase kind p salt nonce a.fields
                (e ∙ ap ok a.payload_fields) in
            absurd (differs (kind_inj (sym made ∙ a.allowed.kind_given other refl)))
      ]
