-- ===== src/Crypto/Codec.antt =====
-- The fields of an envelope of agent_personal_vault/crypto_store.py: their base64 texts, the check of
-- a whole envelope, the key and the associated data.
use agent_personal_vault.Prelude.{
  ℕ, String, ◌&&◌, not, Option, none, some, ◌==◌, nat_eq, if◌then◌else◌,
}
use agent_personal_vault.Result.{Result, ok, err, unavailable_error, require, raise_if, ◌>>=◌, ◌>>◌}
use agent_personal_vault.Python.Text.{◌^^◌, size}
use agent_personal_vault.Python.Json.{pos, Json, int, str, obj, Fields, end, field, get}
use agent_personal_vault.Crypto.{EncryptionProfile, storage_of, payload_profile}
use agent_personal_vault.Crypto.Cipher.{Cipher}
use agent_personal_vault.Crypto.Envelope.{
  unsupported, max_encrypted_ciphertext_bytes, is_some, has_parameters, Bounds, byte_limit,
  too_long, other_than, below, above, or_unsupported, text_of,
}

-- `_decode_envelope_component`
unfoldable pub decode_component : {B : Type 0} → Cipher B → Fields → String → Bounds → Result B
decode_component c payload name b = do
  value ← or_unsupported (text_of (get name payload))
  raise_if (too_long (byte_limit b) (size value)) unsupported
  decoded ← or_unsupported (c.b64decode value)
  require (c.b64encode decoded == value) unsupported
  raise_if (other_than b.exact (c.len decoded)) unsupported
  raise_if (below b.least (c.len decoded)) unsupported
  raise_if (above b.most (c.len decoded)) unsupported
  ok decoded

abbrev pub exactly : ℕ → Bounds
exactly n = record { exact = some n; least = none; most = none }

abbrev pub ciphertext_bounds : Bounds
ciphertext_bounds = record {
  exact = none;
  least = some 16;
  most = some max_encrypted_ciphertext_bytes;
}

pub record Parts (B : Type 0) : Type 0 where
  pub profile : EncryptionProfile
  pub salt : B
  pub nonce : B
  pub ciphertext : B

unfoldable pub check_envelope :
    {B : Type 0} → Cipher B → Option String → EncryptionProfile → Fields → Result (Parts B)
unfolding has_parameters decode_component
check_envelope c kind profile payload = do
  require (has_parameters kind profile payload) unsupported
  salt ← decode_component c payload "salt" (exactly 16)
  nonce ← decode_component c payload "nonce" (exactly 12)
  ciphertext ← decode_component c payload "ciphertext" ciphertext_bounds
  ok (record { profile = profile; salt = salt; nonce = nonce; ciphertext = ciphertext })

-- `_validate_encrypted_payload`; a kind is given for a sidecar.
unfoldable pub validate_envelope : {B : Type 0} → Cipher B → Option String → Json → Result (Parts B)
unfolding payload_profile check_envelope
validate_envelope c kind (obj payload) = do
  profile ← payload_profile c.float_equals (is_some kind) (obj payload)
  check_envelope c kind profile payload
validate_envelope c kind payload = err unsupported

abbrev pub kind_suffix : Option String → String
kind_suffix none = ""
kind_suffix (some kind) = ":" ^^ kind

-- `_aad`
unfoldable pub aad : {B : Type 0} → Cipher B → EncryptionProfile → Option String → Option String
aad c profile kind =
    if nat_eq profile.version 1 && not (is_some kind)
    then none
    else some (
        "agent-personal-vault:"
        ^^ (storage_of (is_some kind) profile
            ^^ (kind_suffix kind ^^ (":v" ^^ c.decimal profile.version))))

abbrev pub or_zero : Option ℕ → ℕ
or_zero none = 0
or_zero (some n) = n

-- `**_profile_fields(profile)`, before the rest of an envelope
unfoldable pub profile_fields : EncryptionProfile → Fields → Fields
profile_fields profile rest = field "version" (int (pos profile.version)) (
    field "kdf" (str profile.kdf) (
      field "iterations" (int (pos profile.iterations)) (
        if nat_eq profile.version 2
        then field "memory_kib" (int (pos (or_zero profile.memory_kib)))
            (field "parallelism" (int (pos (or_zero profile.parallelism))) rest)
        else rest)))

abbrev pub kind_field : Option String → Fields → Fields
kind_field none rest = rest
kind_field (some kind) rest = field "kind" (str kind) rest

-- The dict that both encryptions return.
unfoldable pub envelope_of : {B : Type 0} → Cipher B → Option String → Parts B → Fields
unfolding profile_fields
envelope_of c kind parts = field "app" (str "agent-personal-vault") (
    field "storage" (str (storage_of (is_some kind) parts.profile)) (
      kind_field kind (
        field "cipher" (str "AES-256-GCM") (
          profile_fields parts.profile (
            field "salt" (str (c.b64encode parts.salt)) (
              field "nonce" (str (c.b64encode parts.nonce))
                (field "ciphertext" (str (c.b64encode parts.ciphertext)) end)))))))

-- `_require_crypto`
abbrev pub require_crypto : {B : Type 0} → Cipher B → Result (Unit {0})
require_crypto c = require c.available (
    unavailable_error
      "Encryption requires the optional 'cryptography' package. Install with: pip install 'agent-personal-vault[encrypted]'")

abbrev pub argon2id_key : {B : Type 0} → Cipher B → EncryptionProfile → B → String → Result B
argon2id_key c profile salt passphrase = elim profile.memory_kib [
  | none ↦ err unsupported
  | some memory ↦ elim profile.parallelism [
    | none ↦ err unsupported
    | some lanes ↦ c.argon2id profile.iterations memory lanes salt passphrase
  ]
]

-- The key derivation that a profile names.
abbrev pub profile_key : {B : Type 0} → Cipher B → EncryptionProfile → B → String → Result B
profile_key c profile salt passphrase =
    if profile.kdf == "pbkdf2-hmac-sha256"
    then c.pbkdf2 profile.iterations salt passphrase
    else if profile.kdf == "argon2id"
    then argon2id_key c profile salt passphrase
    else err unsupported

-- `_derive_key`
unfoldable pub derive_key : {B : Type 0} → Cipher B → EncryptionProfile → B → String → Result B
derive_key c profile salt passphrase = do require_crypto c; profile_key c profile salt passphrase
