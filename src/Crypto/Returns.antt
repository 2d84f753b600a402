-- ===== src/Crypto/Returns.antt =====
-- When crypto_store.py encrypts, and that what it encrypts it decrypts.
use agent_personal_vault.Prelude.{String, ◌≡◌, refl, Bool, true, none, some}
use agent_personal_vault.Result.{ok, ◌>>=◌}
use agent_personal_vault.Python.Json.{Json, obj, Fields}
use agent_personal_vault.Python.Sorted.{sorted_fields}
use agent_personal_vault.Crypto.{EncryptionProfile}
use agent_personal_vault.Crypto.Cipher.{Cipher, CipherLaws}
use agent_personal_vault.Crypto.Envelope.{passphrase_strength_issue, check_strength}
use agent_personal_vault.Crypto.Codec.{envelope_of}
use agent_personal_vault.Crypto.Store.{
  seal_parts, is_kind_name, encrypt_store_payload, decrypt_store_payload, encrypt_sidecar_payload,
  decrypt_sidecar_payload,
}
use agent_personal_vault.Crypto.Sealing.{Sealing}
use agent_personal_vault.Crypto.RoundTrip.{
  decrypt-encrypt_store_payload, decrypt-encrypt_sidecar_payload,
}

module _ {B : Type 0} (c : Cipher B) (laws : CipherLaws c) where
  encrypt_store_returns :
      (store : Fields) (passphrase : String) (weak : Bool) (p : EncryptionProfile) (salt nonce : B)
      (s : Sealing c passphrase p salt (c.dumps store))
      → check_strength (passphrase_strength_issue c passphrase) weak ≡ ok tt
      → encrypt_store_payload c store passphrase weak p salt nonce
        ≡ ok (obj (envelope_of c none (seal_parts c none p s.key salt nonce (c.dumps store))))
  unfolding encrypt_store_payload ◌>>=◌
  encrypt_store_returns store passphrase weak p salt nonce s strong =
      rw (s.given, s.supported, strong, s.derives, s.small, s.available) refl

  encrypt_sidecar_returns :
      (plaintext : B) (passphrase kind : String) (p : EncryptionProfile) (salt nonce : B)
      (s : Sealing c passphrase p salt plaintext)
      → is_kind_name kind ≡ true
      → encrypt_sidecar_payload c plaintext passphrase kind p salt nonce
        ≡ ok (
            obj (envelope_of c (some kind) (seal_parts c (some kind) p s.key salt nonce plaintext)))
  unfolding encrypt_sidecar_payload ◌>>=◌
  encrypt_sidecar_returns plaintext passphrase kind p salt nonce s named =
      rw (s.given, named, s.supported, s.derives, s.small, s.available) refl

  -- If the passphrase is not empty, and strong or a weak one is allowed, the profile is supported,
  -- cryptography is available, the key is derived, the JSON text of the store has at most 8 MiB, the salt
  -- 16 bytes and the nonce 12, then the encryption of the store returns an envelope, and the decryption
  -- of the envelope under the passphrase returns the store, with the keys of each dict in order.
  pub store_round_trip :
      (store : Fields) (passphrase : String) (weak : Bool) (p : EncryptionProfile) (salt nonce : B)
      → Sealing c passphrase p salt (c.dumps store)
      → check_strength (passphrase_strength_issue c passphrase) weak ≡ ok tt
      → c.len salt ≡ 16
      → c.len nonce ≡ 12
      → (j : Json) × (encrypt_store_payload c store passphrase weak p salt nonce ≡ ok j)
        × (decrypt_store_payload c j passphrase ≡ ok (obj (sorted_fields store)))
  store_round_trip store passphrase weak p salt nonce s strong salt_size nonce_size =
      let made = encrypt_store_returns store passphrase weak p salt nonce s strong in
      (
        _,
        made,
        decrypt-encrypt_store_payload c laws store passphrase weak p salt nonce _ salt_size
            nonce_size made,
      )

  -- If the passphrase is not empty, the kind is `audit` or `consent`, the profile is supported,
  -- cryptography is available, the key is derived, the sidecar has at most 8 MiB, the salt 16 bytes and
  -- the nonce 12, then the encryption of the sidecar returns an envelope, and the decryption of the
  -- envelope under the passphrase, as the same kind, returns the bytes of the sidecar.
  pub sidecar_round_trip :
      (plaintext : B) (passphrase kind : String) (p : EncryptionProfile) (salt nonce : B)
      → Sealing c passphrase p salt plaintext
      → is_kind_name kind ≡ true
      → c.len salt ≡ 16
      → c.len nonce ≡ 12
      → (j : Json) × (encrypt_sidecar_payload c plaintext passphrase kind p salt nonce ≡ ok j)
        × (decrypt_sidecar_payload c j passphrase kind ≡ ok plaintext)
  sidecar_round_trip plaintext passphrase kind p salt nonce s named salt_size nonce_size =
      let made = encrypt_sidecar_returns plaintext passphrase kind p salt nonce s named in
      (
        _,
        made,
        decrypt-encrypt_sidecar_payload c laws plaintext passphrase kind p salt nonce _ salt_size
            nonce_size made,
      )
