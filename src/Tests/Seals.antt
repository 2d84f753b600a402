-- ===== src/Tests/Seals.antt =====
-- A cipher in memory that meets the laws which the theorems assume, and the theorems of encryption at
-- concrete inputs. Its key is the passphrase, and its tag 16 characters.
use Prim.Native.String.{[], ◌∷◌}
use agent_personal_vault.Prelude.{
  ℕ, zero, suc, String, ◌≡◌, refl, ap, arith, true, false, none, some, nat_eq, if◌then◌else◌,
}
use agent_personal_vault.Result.{Error, decode_error, ok, err}
use agent_personal_vault.Python.Text.{size, ◌^^◌}
use agent_personal_vault.Python.Json.{pos, int, Json, str, obj, Fields, end, field}
use agent_personal_vault.Python.Sorted.{sorted_fields, sorted, insert}
use agent_personal_vault.Crypto.Cipher.{Opened, opened, invalid_tag, Cipher, CipherLaws}
use agent_personal_vault.Result.{◌>>=◌}
use agent_personal_vault.Python.Words.{strip}
use agent_personal_vault.Crypto.{argon2id_v2_profile}
use agent_personal_vault.Crypto.Equal.{profile_eq}
use agent_personal_vault.Crypto.Envelope.{distinct, check_strength, passphrase_strength_issue}
use agent_personal_vault.Crypto.Codec.{derive_key, envelope_of}
use agent_personal_vault.Crypto.Store.{
  seal_parts, encrypt_store_payload, decrypt_store_payload, encrypt_sidecar_payload,
  decrypt_sidecar_payload,
}
use agent_personal_vault.Crypto.Sealing.{Sealing}
use agent_personal_vault.Crypto.Returns.{store_round_trip, sidecar_round_trip}
use agent_personal_vault.Crypto.RoundTrip.{decrypt-encrypt_store_payload}
use agent_personal_vault.Crypto.Strict.{
  Accepted, decrypt_store_payload-Accepted, decrypt-other_kind,
}
use agent_personal_vault.Vault.Host.{VaultHostLaws}
use agent_personal_vault.Vault.Encrypted.{RandomLaws, with_crypto, with_crypto-VaultHostLaws}
use agent_personal_vault.Tests.Safe.{Safe, safe_host, safe_host-VaultHostLaws}
use agent_personal_vault.Tests.Notation.{dumps_text, loads_text, loads-dumps_text}
use agent_personal_vault.Tests.Groups.{encode, decode, decode-encode, size-encode}

-- The tag names nothing: this cipher does not authenticate.
abbrev sealed : String → String
sealed plaintext = "0123456789abcdef" ^^ plaintext

abbrev untagged : ℕ → String → Opened String
untagged zero s = opened s
untagged (suc n) [] = invalid_tag
untagged (suc n) (c ∷ s) = untagged n s

abbrev pub cipher : Cipher String
cipher = record {
  len = size;
  available = true;
  b64encode = encode;
  b64decode = decode;
  pbkdf2 = λ iterations salt passphrase. ok passphrase;
  argon2id = λ iterations memory lanes salt passphrase. ok passphrase;
  seal = λ key nonce plaintext aad. sealed plaintext;
  unseal = λ key nonce ciphertext aad. untagged 16 ciphertext;
  dumps = λ d. dumps_text (obj (sorted_fields d));
  loads = loads_text;
  loads_error = λ s. decode_error;
  float_equals = λ t n. false;
  decimal = λ n. if nat_eq n 1 then "1" else "2";
  nfkc = λ s. s;
  casefold = λ s. s;
}

pub cipher-CipherLaws : CipherLaws cipher
cipher-CipherLaws = record {
  b64_round_trip = decode-encode;
  b64_size = size-encode;
  unseal-seal = λ key nonce plaintext aad. refl;
  seal_length = λ key nonce plaintext aad. omega arith;
  loads-dumps = λ d. loads-dumps_text (obj (sorted_fields d));
}

abbrev pub zeros : ℕ → String
zeros zero = []
zeros (suc n) = "0" ∷ zeros n

pub size-zeros : (n : ℕ) → size (zeros n) ≡ n
size-zeros zero = refl
size-zeros (suc n) = ap suc (size-zeros n)

abbrev pub profile_store : Fields
profile_store =
    field "version" (int (pos 1)) (field "fields" (obj (field "NAME" (str "Ada") end)) end)

abbrev pub salt : String
salt = "saltsaltsaltsalt"

abbrev pub nonce : String
nonce = "nonce_nonce_"

abbrev pub passphrase : String
passphrase = "violet harbour 27"

abbrev pub envelope : Json
envelope = obj (
    envelope_of cipher none (
      seal_parts cipher none argon2id_v2_profile passphrase salt nonce
        (cipher.dumps profile_store)))

pub envelope_made :
    encrypt_store_payload cipher profile_store passphrase false argon2id_v2_profile salt nonce
    ≡ ok envelope
unfolding encrypt_store_payload ◌>>=◌ strip distinct dumps_text profile_eq sorted insert
envelope_made = refl

envelope-Sealing : Sealing cipher passphrase argon2id_v2_profile salt (cipher.dumps profile_store)
unfolding profile_eq derive_key ◌>>=◌ dumps_text sorted insert
envelope-Sealing = record {
  given = refl;
  supported = refl;
  available = refl;
  key = passphrase;
  derives = refl;
  small = refl;
}

passphrase_strong : check_strength (passphrase_strength_issue cipher passphrase) false ≡ ok tt
unfolding passphrase_strength_issue strip distinct
passphrase_strong = refl

store_round_trip_example :
    (j : Json) × (encrypt_store_payload cipher profile_store passphrase false argon2id_v2_profile
        salt nonce
      ≡ ok j)
    × (decrypt_store_payload cipher j passphrase ≡ ok (obj (sorted_fields profile_store)))
store_round_trip_example =
    store_round_trip cipher cipher-CipherLaws profile_store passphrase false argon2id_v2_profile
      salt nonce envelope-Sealing passphrase_strong refl refl

pub envelope_opened :
    decrypt_store_payload cipher envelope passphrase ≡ ok (obj (sorted_fields profile_store))
envelope_opened =
    decrypt-encrypt_store_payload cipher cipher-CipherLaws profile_store passphrase false
      argon2id_v2_profile salt nonce envelope refl refl envelope_made

decrypt_store_payload-Accepted_example : Accepted none envelope
decrypt_store_payload-Accepted_example =
    decrypt_store_payload-Accepted cipher envelope passphrase (obj (sorted_fields profile_store))
      envelope_opened

abbrev log_envelope : Json
log_envelope = obj (
    envelope_of cipher (some "audit")
      (seal_parts cipher (some "audit") argon2id_v2_profile passphrase salt nonce "one line"))

log_envelope_made :
    encrypt_sidecar_payload cipher "one line" passphrase "audit" argon2id_v2_profile salt nonce
    ≡ ok log_envelope
unfolding encrypt_sidecar_payload ◌>>=◌ profile_eq
log_envelope_made = refl

log-Sealing : Sealing cipher passphrase argon2id_v2_profile salt "one line"
unfolding profile_eq derive_key ◌>>=◌
log-Sealing = record {
  given = refl;
  supported = refl;
  available = refl;
  key = passphrase;
  derives = refl;
  small = refl;
}

sidecar_round_trip_example :
    (j : Json) × (encrypt_sidecar_payload cipher "one line" passphrase "audit" argon2id_v2_profile
        salt nonce
      ≡ ok j)
    × (decrypt_sidecar_payload cipher j passphrase "audit" ≡ ok "one line")
sidecar_round_trip_example =
    sidecar_round_trip cipher cipher-CipherLaws "one line" passphrase "audit" argon2id_v2_profile
      salt nonce log-Sealing refl refl refl

decrypt-other_kind_example :
    (e : Error) × (decrypt_sidecar_payload cipher log_envelope passphrase "consent" ≡ err e)
decrypt-other_kind_example =
    decrypt-other_kind cipher "one line" passphrase "audit" argon2id_v2_profile salt nonce
      log_envelope "consent" passphrase log_envelope_made (λ e. cc)

-- Random bytes that are all the same.
abbrev constant : ℕ → Safe → String × Safe
constant n w = (zeros n, w)

constant-RandomLaws : RandomLaws safe_host cipher constant
constant-RandomLaws = record {
  random_size = λ n w. size-zeros n;
  random-vault = λ n w. record { exists = refl; content = refl };
}

with_crypto-VaultHostLaws_example : VaultHostLaws (with_crypto safe_host cipher constant)
with_crypto-VaultHostLaws_example =
    with_crypto-VaultHostLaws safe_host cipher constant safe_host-VaultHostLaws constant-RandomLaws
      cipher-CipherLaws
