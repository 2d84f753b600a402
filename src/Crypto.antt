-- ===== src/Crypto.antt =====
-- agent_personal_vault/crypto_store.py: the profiles, and how a payload names its own.
pub mod Equal
pub mod Cipher
pub mod Envelope
pub mod Codec
pub mod Store
pub mod Written
pub mod Sealing
pub mod RoundTrip
pub mod Returns
pub mod Allowed
pub mod Strict
pub mod Recognized
use agent_personal_vault.Prelude.{
  ℕ, ◌*◌, String, Bool, true, false, ◌&&◌, ◌||◌, Option, none, some, ◌==◌, nat_eq, if◌then◌else◌,
}
use agent_personal_vault.Result.{Error, Result, ok, err, decryption_error}
use agent_personal_vault.Python.Json.{pos, Json, bool, int, float, str, arr, obj, Fields, get}

pub record EncryptionProfile : Type 0 where
  pub name : String
  pub version : ℕ
  pub kdf : String
  pub vault_storage : String
  pub sidecar_storage : String
  pub iterations : ℕ
  pub memory_kib : Option ℕ
  pub parallelism : Option ℕ

abbrev pub legacy_v1_profile : EncryptionProfile
legacy_v1_profile = record {
  name = "v1-pbkdf2-sha256-390k";
  version = 1;
  kdf = "pbkdf2-hmac-sha256";
  vault_storage = "encrypted-json-v1";
  sidecar_storage = "encrypted-sidecar-json-v1";
  iterations = 390_000;
  memory_kib = none;
  parallelism = none;
}

abbrev pub argon2id_v2_profile : EncryptionProfile
argon2id_v2_profile = record {
  name = "v2-argon2id-19m-t2-p1";
  version = 2;
  kdf = "argon2id";
  vault_storage = "encrypted-json-v2";
  sidecar_storage = "encrypted-sidecar-json-v2";
  iterations = 2;
  memory_kib = some (19 * 1024);
  parallelism = some 1;
}

abbrev pub latest_encryption_profile : EncryptionProfile
latest_encryption_profile = argon2id_v2_profile

-- `payload.get("storage") in {...}`: a list or a dict has no hash.
abbrev pub is_storage : Option Json → Result Bool
is_storage (some (str s)) = ok (s == "encrypted-json-v1" || s == "encrypted-json-v2")
is_storage (some (arr _)) = err (Error.type_error)
is_storage (some (obj _)) = err (Error.type_error)
is_storage _ = ok false

-- `v == n`, where `True == 1`; whether a float is equal to a number is a parameter
abbrev pub equals_number : (String → ℕ → Bool) → ℕ → Option Json → Bool
equals_number float_equals n (some (int (pos m))) = nat_eq m n
equals_number float_equals n (some (bool b)) = if b then nat_eq 1 n else nat_eq 0 n
equals_number float_equals n (some (float t)) = float_equals t n
equals_number float_equals n _ = false

abbrev pub equals_text : String → Option Json → Bool
equals_text text (some (str s)) = s == text
equals_text text _ = false

unfoldable pub is_encrypted_payload : Json → Result Bool
is_encrypted_payload (obj payload) = is_storage (get "storage" payload)
is_encrypted_payload _ = ok false

abbrev pub is_sidecar_storage : Option Json → Result Bool
is_sidecar_storage (some (str s)) =
    ok (s == "encrypted-sidecar-json-v1" || s == "encrypted-sidecar-json-v2")
is_sidecar_storage (some (arr _)) = err (Error.type_error)
is_sidecar_storage (some (obj _)) = err (Error.type_error)
is_sidecar_storage _ = ok false

-- `kind is None or payload.get("kind") == kind`, after the test on the storage
abbrev pub and_kind : Option String → Fields → Result Bool → Result Bool
and_kind (some kind) payload (ok true) = ok (equals_text kind (get "kind" payload))
and_kind _ payload storage = storage

unfoldable pub is_encrypted_sidecar_payload : Option String → Json → Result Bool
is_encrypted_sidecar_payload kind (obj payload) =
    and_kind kind payload (is_sidecar_storage (get "storage" payload))
is_encrypted_sidecar_payload kind _ = ok false

-- `profile.sidecar_storage if sidecar else profile.vault_storage`
abbrev pub storage_of : Bool → EncryptionProfile → String
storage_of sidecar profile = if sidecar then profile.sidecar_storage else profile.vault_storage

-- One round of the loop over the supported profiles.
abbrev pub is_profile : (String → ℕ → Bool) → Bool → EncryptionProfile → Fields → Bool
is_profile float_equals sidecar profile payload =
    equals_text (storage_of sidecar profile) (get "storage" payload)
    && equals_number float_equals (profile.version) (get "version" payload)

-- `encryption_profile(payload, sidecar=…)`
unfoldable pub payload_profile : (String → ℕ → Bool) → Bool → Json → Result EncryptionProfile
payload_profile float_equals sidecar (obj payload) =
    if is_profile float_equals sidecar legacy_v1_profile payload
    then ok legacy_v1_profile
    else if is_profile float_equals sidecar argon2id_v2_profile payload
    then ok argon2id_v2_profile
    else err (decryption_error "unsupported encrypted store format")
payload_profile float_equals sidecar _ = err (decryption_error "unsupported encrypted store format")

-- of a vault
unfoldable pub encryption_profile : (String → ℕ → Bool) → Json → Result EncryptionProfile
unfolding payload_profile
encryption_profile float_equals = payload_profile float_equals false
