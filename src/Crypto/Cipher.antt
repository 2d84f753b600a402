-- ===== src/Crypto/Cipher.antt =====
-- What agent_personal_vault/crypto_store.py takes from Python's library and from the optional
-- `cryptography` package, and what it relies on.
use agent_personal_vault.Prelude.{ℕ, ◌+◌, ◌*◌, ◌/◌, String, ◌≡◌, Bool, Option, some}
use agent_personal_vault.Result.{Error, Result}
use agent_personal_vault.Python.Text.{size}
use agent_personal_vault.Python.Json.{Json, obj, Fields}
use agent_personal_vault.Python.Sorted.{sorted_fields}

-- How `AESGCM.decrypt` ends: with the plaintext, with `InvalidTag`, or with another exception.
pub data Opened (Bytes : Type 0) : Type 0 where
  opened : Bytes → Opened Bytes
  invalid_tag : Opened Bytes
  failed : Opened Bytes

-- `Bytes` is the type of Python's byte strings.
pub record Cipher (Bytes : Type 0) : Type 0 where
  -- `len(b)`
  pub len : Bytes → ℕ
  -- whether the imports of `_require_crypto` succeed
  pub available : Bool
  -- `base64.b64encode(b).decode("ascii")` and `base64.b64decode(s, validate=True)`
  pub b64encode : Bytes → String
  pub b64decode : String → Option Bytes
  -- the derivation of a key of 32 bytes: the costs, the salt and the passphrase
  pub pbkdf2 : ℕ → Bytes → String → Result Bytes
  pub argon2id : ℕ → ℕ → ℕ → Bytes → String → Result Bytes
  -- `AESGCM(key).encrypt(nonce, plaintext, aad)`, and `decrypt`
  pub seal : Bytes → Bytes → Bytes → Option String → Bytes
  pub unseal : Bytes → Bytes → Bytes → Option String → Opened Bytes
  -- `json.dumps(store, ensure_ascii=False, sort_keys=True).encode("utf-8")`
  pub dumps : Fields → Bytes
  -- `json.loads(b.decode("utf-8"))`: the value, and what is raised where there is none, which is
  -- `UnicodeDecodeError` or `JSONDecodeError`, `RecursionError`, or the `ValueError` of an integer
  -- with too many digits
  pub loads : Bytes → Option Json
  pub loads_error : Bytes → Error
  -- whether a float, by its text, is equal to a number
  pub float_equals : String → ℕ → Bool
  -- `str(n)`
  pub decimal : ℕ → String
  -- `unicodedata.normalize("NFKC", s)` and `s.casefold()`
  pub nfkc : String → String
  pub casefold : String → String

-- Base64 decodes what it encodes, into texts of the documented length; an AEAD opens what it sealed
-- under the same key, nonce and associated data, and its tag has 16 bytes; JSON text reads back.
pub record CipherLaws {Bytes : Type 0} (c : Cipher Bytes) : Type 0 where
  pub b64_round_trip : (b : Bytes) → c.b64decode (c.b64encode b) ≡ some b
  pub b64_size : (b : Bytes) → size (c.b64encode b) ≡ ((c.len b + 2) / 3) * 4
  pub unseal-seal :
      (key nonce plaintext : Bytes) (aad : Option String)
      → c.unseal key nonce (c.seal key nonce plaintext aad) aad ≡ opened plaintext
  pub seal_length :
      (key nonce plaintext : Bytes) (aad : Option String)
      → c.len (c.seal key nonce plaintext aad) ≡ c.len plaintext + 16
  pub loads-dumps : (d : Fields) → c.loads (c.dumps d) ≡ some (obj (sorted_fields d))
