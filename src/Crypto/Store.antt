-- ===== src/Crypto/Store.antt =====
-- Encryption and decryption of agent_personal_vault/crypto_store.py, of a store and of a sidecar. What
-- `os.urandom` gives for the salt and the nonce is an argument.
use agent_personal_vault.Prelude.{String, Bool, ◌||◌, Option, none, some, ◌==◌, ltb}
use agent_personal_vault.Result.{
  Result, ok, err, Error, value_error, decryption_error, instead_of_decode_error, require, raise_if,
  ◌>>=◌, ◌>>◌,
}
use agent_personal_vault.Python.Text.{◌^^◌}
use agent_personal_vault.Python.Json.{Json, obj, Fields}
use agent_personal_vault.Crypto.{EncryptionProfile, is_encrypted_payload}
use agent_personal_vault.Crypto.Equal.{is_supported}
use agent_personal_vault.Crypto.Cipher.{Opened, opened, invalid_tag, failed, Cipher}
use agent_personal_vault.Crypto.Envelope.{
  max_encrypted_plaintext_bytes, passphrase_strength_issue, check_strength,
}
use agent_personal_vault.Crypto.Codec.{
  Parts, validate_envelope, aad, envelope_of, require_crypto, derive_key,
}

-- What the two encryptions put into an envelope.
unfoldable pub seal_parts :
    {B : Type 0} → Cipher B → Option String → EncryptionProfile → B → B → B → B → Parts B
unfolding aad
seal_parts c kind profile key salt nonce plaintext = record {
  profile = profile;
  salt = salt;
  nonce = nonce;
  ciphertext = c.seal key nonce plaintext (aad c profile kind);
}

unfoldable pub encrypt_store_payload :
    {B : Type 0}
    → Cipher B
    → Fields
    → String
    → Bool
    → EncryptionProfile
    → (salt nonce : B) → Result Json
unfolding passphrase_strength_issue derive_key seal_parts envelope_of
encrypt_store_payload c store passphrase allow_weak profile salt nonce = do
  raise_if (passphrase == "") (value_error "passphrase is required")
  require (is_supported profile) (value_error "encryption profile is unsupported")
  check_strength (passphrase_strength_issue c passphrase) allow_weak
  require_crypto c
  key ← derive_key c profile salt passphrase
  raise_if (ltb max_encrypted_plaintext_bytes (c.len (c.dumps store)))
      (value_error "store is too large for encrypted storage")
  ok (obj (envelope_of c none (seal_parts c none profile key salt nonce (c.dumps store))))

abbrev pub is_kind_name : String → Bool
is_kind_name kind = kind == "audit" || kind == "consent"

unfoldable pub encrypt_sidecar_payload :
    {B : Type 0}
    → Cipher B
    → B
    → String
    → String
    → EncryptionProfile
    → (salt nonce : B) → Result Json
unfolding derive_key seal_parts envelope_of
encrypt_sidecar_payload c payload passphrase kind profile salt nonce = do
  raise_if (passphrase == "") (value_error "passphrase is required")
  require (is_kind_name kind) (value_error "sidecar kind is invalid")
  require (is_supported profile) (value_error "encryption profile is unsupported")
  raise_if (ltb max_encrypted_plaintext_bytes (c.len payload))
      (value_error "sidecar is too large for encrypted storage")
  require_crypto c
  key ← derive_key c profile salt passphrase
  ok (obj (envelope_of c (some kind) (seal_parts c (some kind) profile key salt nonce payload)))

-- The `except` clauses, whose messages name what was encrypted.
abbrev pub derived : {B : Type 0} → String → Result B → Result B
derived what (ok key) = ok key
derived what (err (decryption_error s)) = err (decryption_error s)
derived what (err e) = err (decryption_error ("failed to decrypt encrypted " ^^ what))

abbrev pub plaintext_of : {B : Type 0} → String → Opened B → Result B
plaintext_of what (opened plaintext) = ok plaintext
plaintext_of what invalid_tag =
    err (decryption_error ("invalid passphrase or corrupted encrypted " ^^ what))
plaintext_of what failed = err (decryption_error ("failed to decrypt encrypted " ^^ what))

unfoldable pub open_parts :
    {B : Type 0} → Cipher B → String → Option String → Parts B → String → Result B
unfolding derive_key aad
open_parts c what kind parts passphrase = do
  key ← derived what (derive_key c parts.profile parts.salt passphrase)
  plaintext_of what (c.unseal key parts.nonce parts.ciphertext (aad c parts.profile kind))

-- From the value of `json.loads`, or the error that it raises.
abbrev pub as_dict : Error → Option Json → Result Json
as_dict e (some (obj d)) = ok (obj d)
as_dict e none = err (instead_of_decode_error (decryption_error "decrypted store is invalid") e)
as_dict e _ = err (decryption_error "decrypted store is invalid")

unfoldable pub decrypt_store_payload : {B : Type 0} → Cipher B → Json → String → Result Json
unfolding is_encrypted_payload
decrypt_store_payload c payload passphrase = do
  raise_if (passphrase == "") (value_error "passphrase is required")
  encrypted ← is_encrypted_payload payload
  require encrypted (decryption_error "store payload is not encrypted")
  parts ← validate_envelope c none payload
  require_crypto c
  plaintext ← open_parts c "store" none parts passphrase
  as_dict (c.loads_error plaintext) (c.loads plaintext)

unfoldable pub decrypt_sidecar_payload : {B : Type 0} → Cipher B → Json → String → String → Result B
decrypt_sidecar_payload c payload passphrase kind = do
  raise_if (passphrase == "") (value_error "passphrase is required")
  require (is_kind_name kind) (value_error "sidecar kind is invalid")
  parts ← validate_envelope c (some kind) payload
  require_crypto c
  open_parts c "sidecar" (some kind) parts passphrase
