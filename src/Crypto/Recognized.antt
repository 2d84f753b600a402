-- ===== src/Crypto/Recognized.antt =====
-- What crypto_store.py encrypts as a sidecar, it recognizes as one.
use agent_personal_vault.Prelude.{String, ◌≡◌, refl, sym, subst, true, none, some, eq_refl}
use agent_personal_vault.Result.{ok}
use agent_personal_vault.Python.Json.{Json, obj, get}
use agent_personal_vault.Crypto.{
  EncryptionProfile, storage_of, is_sidecar_storage, is_encrypted_sidecar_payload, payload_profile,
}
use agent_personal_vault.Crypto.Equal.{is_supported, by_profile}
use agent_personal_vault.Crypto.Cipher.{Cipher, CipherLaws}
use agent_personal_vault.Crypto.Codec.{aad, envelope_of, Parts}
use agent_personal_vault.Crypto.Store.{seal_parts, encrypt_sidecar_payload}
use agent_personal_vault.Crypto.Sealing.{encrypt_sidecar-Sealing}
use agent_personal_vault.Crypto.Written.{profile-written}
use agent_personal_vault.Python.Json.{str}

is_sidecar_storage-storage_of :
    (p : EncryptionProfile)
    → is_supported p ≡ true
    → is_sidecar_storage (some (str (storage_of true p))) ≡ ok true
is_sidecar_storage-storage_of p h =
    by_profile (λ q. is_sidecar_storage (some (str (storage_of true q))) ≡ ok true) p h refl refl

-- An envelope that an encryption of a sidecar returned, as it is recognized later.
pub record Recognized {B : Type 0} (c : Cipher B) (kind : String) (p : EncryptionProfile)
    (envelope : Json) : Type 0 where
  pub sidecar : is_encrypted_sidecar_payload none envelope ≡ ok true
  pub named : is_encrypted_sidecar_payload (some kind) envelope ≡ ok true
  pub profile : payload_profile c.float_equals true envelope ≡ ok p

module _ {B : Type 0} (c : Cipher B) (laws : CipherLaws c) where
  recognized-envelope :
      (kind : String) (parts : Parts B)
      → is_supported parts.profile ≡ true
      → (is_encrypted_sidecar_payload none (obj (envelope_of c (some kind) parts)) ≡ ok true)
        × (is_encrypted_sidecar_payload (some kind) (obj (envelope_of c (some kind) parts))
            ≡ ok true)
  unfolding is_encrypted_sidecar_payload envelope_of get
  recognized-envelope kind parts h = (
    rw (is_sidecar_storage-storage_of parts.profile h) refl,
    rw (is_sidecar_storage-storage_of parts.profile h, eq_refl kind) refl,
  )

  pub encrypt_sidecar_payload-Recognized :
      (plaintext : B) (passphrase kind : String) (p : EncryptionProfile) (salt nonce : B) (j : Json)
      → encrypt_sidecar_payload c plaintext passphrase kind p salt nonce ≡ ok j
      → Recognized c kind p j
  unfolding seal_parts
  encrypt_sidecar_payload-Recognized plaintext passphrase kind p salt nonce j e =
      let (_, s, written) = encrypt_sidecar-Sealing c plaintext passphrase kind p salt nonce j e in
      let parts = seal_parts c (some kind) p s.key salt nonce plaintext in
      let (sidecar, named) = recognized-envelope kind parts s.supported in
      subst (Recognized c kind p) (sym written) (record {
        sidecar = sidecar;
        named = named;
        profile =
            profile-written c laws (some kind) salt nonce
              (c.seal s.key nonce plaintext (aad c p (some kind))) p s.supported;
      })
