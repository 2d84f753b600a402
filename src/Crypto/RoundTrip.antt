-- ===== src/Crypto/RoundTrip.antt =====
-- What crypto_store.py encrypts, it decrypts with the same passphrase.
use agent_personal_vault.Prelude.{
  ◌+◌, String, ◌≡◌, refl, Bool, true, false, Option, none, some, arith, ltb,
}
use agent_personal_vault.Result.{ok, ◌>>=◌}
use agent_personal_vault.Python.Json.{Json, obj, Fields}
use agent_personal_vault.Python.Sorted.{sorted_fields}
use agent_personal_vault.Crypto.{EncryptionProfile, is_encrypted_payload, encryption_profile}
use agent_personal_vault.Crypto.Equal.{is_supported}
use agent_personal_vault.Crypto.Cipher.{Cipher, CipherLaws}
use agent_personal_vault.Crypto.Envelope.{max_encrypted_plaintext_bytes}
use agent_personal_vault.Crypto.Codec.{
  ciphertext_bounds, aad, envelope_of, derive_key, validate_envelope,
}
use agent_personal_vault.Crypto.Store.{
  seal_parts, open_parts, encrypt_store_payload, decrypt_store_payload, is_kind_name,
  encrypt_sidecar_payload, decrypt_sidecar_payload,
}
use agent_personal_vault.Crypto.Sealing.{Sealing, encrypt_store-Sealing, encrypt_sidecar-Sealing}
use agent_personal_vault.Crypto.Written.{fits, validate-written, encrypted-written, profile-written}

module _ {B : Type 0} (c : Cipher B) (laws : CipherLaws c) where
  -- Sealed parts open under the key that sealed them.
  open-seal :
      (what : String) (kind : Option String) (p : EncryptionProfile) (passphrase : String)
      (key salt nonce plaintext : B)
      → derive_key c p salt passphrase ≡ ok key
      → open_parts c what kind (seal_parts c kind p key salt nonce plaintext) passphrase
        ≡ ok plaintext
  unfolding open_parts seal_parts ◌>>=◌
  open-seal what kind p passphrase key salt nonce plaintext derives =
      rw (derives, laws.unseal-seal key nonce plaintext (aad c p kind)) refl

  ciphertext-fits :
      (plaintext ciphertext : B)
      → ltb max_encrypted_plaintext_bytes (c.len plaintext) ≡ false
      → c.len ciphertext ≡ c.len plaintext + 16
      → fits ciphertext_bounds (c.len ciphertext) ≡ true
  ciphertext-fits plaintext ciphertext small size = ground arith

  -- The parts of an envelope that is sealed, read back.
  validate-seal :
      (kind : Option String) (p : EncryptionProfile) (key salt nonce plaintext : B)
      → is_supported p ≡ true
      → c.len salt ≡ 16
      → c.len nonce ≡ 12
      → ltb max_encrypted_plaintext_bytes (c.len plaintext) ≡ false
      → validate_envelope c kind
          (obj (envelope_of c kind (seal_parts c kind p key salt nonce plaintext)))
        ≡ ok (seal_parts c kind p key salt nonce plaintext)
  unfolding seal_parts
  validate-seal kind p key salt nonce plaintext h salt_size nonce_size small =
      let ciphertext = c.seal key nonce plaintext (aad c p kind) in
      validate-written c laws kind salt nonce ciphertext p h salt_size nonce_size (
        ciphertext-fits plaintext ciphertext small
          (laws.seal_length key nonce plaintext (aad c p kind)))

  encrypted-seal :
      (p : EncryptionProfile) (key salt nonce plaintext : B)
      → is_supported p ≡ true
      → is_encrypted_payload
          (obj (envelope_of c none (seal_parts c none p key salt nonce plaintext)))
        ≡ ok true
  unfolding seal_parts
  encrypted-seal p key salt nonce plaintext supported =
      encrypted-written c laws salt nonce _ p supported

  decrypt-sealed :
      (store : Fields) (passphrase : String) (p : EncryptionProfile) (salt nonce : B)
      (s : Sealing c passphrase p salt (c.dumps store))
      → c.len salt ≡ 16
      → c.len nonce ≡ 12
      → decrypt_store_payload c
          (obj (envelope_of c none (seal_parts c none p s.key salt nonce (c.dumps store))))
          passphrase
        ≡ ok (obj (sorted_fields store))
  unfolding decrypt_store_payload ◌>>=◌
  decrypt-sealed store passphrase p salt nonce s salt_size nonce_size =
      let plaintext = c.dumps store in
      rw
        (
          s.given,
          encrypted-seal p s.key salt nonce plaintext s.supported,
          validate-seal none p s.key salt nonce plaintext s.supported salt_size nonce_size s.small,
          open-seal "store" none p passphrase s.key salt nonce plaintext s.derives,
          laws.loads-dumps store,
          s.available,
        )
        refl

  decrypt-sealed_sidecar :
      (plaintext : B) (passphrase kind : String) (p : EncryptionProfile) (salt nonce : B)
      (s : Sealing c passphrase p salt plaintext)
      → is_kind_name kind ≡ true
      → c.len salt ≡ 16
      → c.len nonce ≡ 12
      → decrypt_sidecar_payload c
          (obj (envelope_of c (some kind) (seal_parts c (some kind) p s.key salt nonce plaintext)))
          passphrase
          kind
        ≡ ok plaintext
  unfolding decrypt_sidecar_payload ◌>>=◌
  decrypt-sealed_sidecar plaintext passphrase kind p salt nonce s named salt_size nonce_size =
      rw
        (
          s.given,
          named,
          validate-seal (some kind) p s.key salt nonce plaintext s.supported salt_size nonce_size
              s.small,
          open-seal "sidecar" (some kind) p passphrase s.key salt nonce plaintext s.derives,
          s.available,
        )
        refl

  -- From an encryption of a store that returned.
  pub decrypt-encrypt_store_payload :
      (store : Fields) (passphrase : String) (weak : Bool) (p : EncryptionProfile) (salt nonce : B)
      (j : Json)
      → c.len salt ≡ 16
      → c.len nonce ≡ 12
      → encrypt_store_payload c store passphrase weak p salt nonce ≡ ok j
      → decrypt_store_payload c j passphrase ≡ ok (obj (sorted_fields store))
  decrypt-encrypt_store_payload store passphrase weak p salt nonce j salt_size nonce_size e =
      let (s, written) = encrypt_store-Sealing c store passphrase weak p salt nonce j e in
      rw (written) (decrypt-sealed store passphrase p salt nonce s salt_size nonce_size)

  -- From an encryption of a sidecar that returned.
  pub decrypt-encrypt_sidecar_payload :
      (plaintext : B) (passphrase kind : String) (p : EncryptionProfile) (salt nonce : B) (j : Json)
      → c.len salt ≡ 16
      → c.len nonce ≡ 12
      → encrypt_sidecar_payload c plaintext passphrase kind p salt nonce ≡ ok j
      → decrypt_sidecar_payload c j passphrase kind ≡ ok plaintext
  decrypt-encrypt_sidecar_payload plaintext passphrase kind p salt nonce j salt_size nonce_size e =
      let (named, s, written) =
        encrypt_sidecar-Sealing c plaintext passphrase kind p salt nonce j e in
      rw (written)
        (decrypt-sealed_sidecar plaintext passphrase kind p salt nonce s named salt_size nonce_size)

  -- What is written reads as an encrypted store of its profile.
  pub encrypt_store_payload-profile :
      (store : Fields) (passphrase : String) (weak : Bool) (p : EncryptionProfile) (salt nonce : B)
      (j : Json)
      → encrypt_store_payload c store passphrase weak p salt nonce ≡ ok j
      → (is_encrypted_payload j ≡ ok true) × (encryption_profile c.float_equals j ≡ ok p)
  unfolding encryption_profile seal_parts
  encrypt_store_payload-profile store passphrase weak p salt nonce j e =
      let (s, written) = encrypt_store-Sealing c store passphrase weak p salt nonce j e in
      let ciphertext = c.seal s.key nonce (c.dumps store) (aad c p none) in
      rw (written) (
        encrypted-written c laws salt nonce ciphertext p s.supported,
        profile-written c laws none salt nonce ciphertext p s.supported,
      )
