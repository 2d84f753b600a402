-- ===== src/Crypto/Envelope.antt =====
-- The strength of a new passphrase, and the tests on the fields of an envelope, in
-- agent_personal_vault/crypto_store.py.
use agent_personal_vault.Prelude.{
  ℕ, suc, ◌+◌, ◌*◌, ◌/◌, code, String, Bool, true, false, not, ◌&&◌, ◌||◌, Option, none, some, List,
  [], ◌∷◌, ◌==◌, ltb, nat_eq, if◌then◌else◌,
}
use agent_personal_vault.Result.{Error, Result, ok, err, value_error, decryption_error}
use agent_personal_vault.Python.Text.{◌^^◌, size, any_char}
use agent_personal_vault.Python.Words.{strip}
use agent_personal_vault.Python.Json.{pos, Json, int, str, Fields, end, field, get, has}
use agent_personal_vault.Crypto.{EncryptionProfile, storage_of, equals_text}
use agent_personal_vault.Crypto.Cipher.{Cipher}

abbrev pub unsupported : Error
unsupported = decryption_error "unsupported encrypted store format"

abbrev pub max_encrypted_plaintext_bytes : ℕ
max_encrypted_plaintext_bytes = 8 * 1024 * 1024

abbrev pub max_encrypted_ciphertext_bytes : ℕ
max_encrypted_ciphertext_bytes = max_encrypted_plaintext_bytes + 16

-- `passphrase_strength_issue`

-- `len(set(s))`
unfoldable pub distinct : String → ℕ
distinct String.[] = 0
distinct (String.◌∷◌ c s) =
    let rest = distinct s in if any_char (λ d. nat_eq (code d) (code c)) s then rest else suc rest

abbrev pub is_common : String → Bool
is_common s =
    s == "agentpersonalvault"
    || s == "letmein"
    || s == "password"
    || s == "password123"
    || s == "qwertyuiop"
    || s == "test passphrase"

unfoldable pub passphrase_strength_issue : {B : Type 0} → Cipher B → String → Option String
passphrase_strength_issue c passphrase =
    let candidate = strip (c.nfkc passphrase) in
    if ltb (size candidate) 12
    then some "use at least 12 characters"
    else if is_common (c.casefold candidate) || ltb (distinct candidate) 4
    then some "choose a less predictable value"
    else none

-- `if strength_issue is not None and not allow_weak_passphrase: raise …`
abbrev pub check_strength : Option String → Bool → Result (Unit {0})
check_strength (some issue) false =
    err (value_error ("passphrase is too weak for new encryption: " ^^ issue))
check_strength _ _ = ok tt

-- The names of the fields: `set(payload) == required`.
abbrev pub one_of : List String → String → Bool
one_of [] key = false
one_of (k ∷ ks) key = k == key || one_of ks key

unfoldable pub keys_among : List String → Fields → Bool
keys_among names end = true
keys_among names (field k v d) = one_of names k && keys_among names d

abbrev pub has_all : List String → Fields → Bool
has_all [] d = true
has_all (k ∷ ks) d = has k d && has_all ks d

abbrev pub required_keys : Bool → ℕ → List String
required_keys sidecar version =
    let base =
      "app" ∷ "storage" ∷ "version" ∷ "cipher" ∷ "kdf" ∷ "iterations" ∷ "salt" ∷ "nonce"
      ∷ "ciphertext" ∷ [] in
    let cost = if nat_eq version 2 then "memory_kib" ∷ "parallelism" ∷ base else base in
    if sidecar then "kind" ∷ cost else cost

-- `type(v) is int and v == n`
abbrev pub is_exactly : ℕ → Option Json → Bool
is_exactly n (some (int (pos m))) = nat_eq m n
is_exactly n _ = false

abbrev pub is_exactly_some : Option ℕ → Option Json → Bool
is_exactly_some none v = false
is_exactly_some (some n) v = is_exactly n v

abbrev pub is_kind : Option String → Fields → Bool
is_kind none payload = true
is_kind (some kind) payload = equals_text kind (get "kind" payload)

abbrev pub is_some : {A : Type 0} → Option A → Bool
is_some none = false
is_some (some _) = true

-- The three tests on the plain fields of an envelope, which raise the same error.
unfoldable pub has_parameters : Option String → EncryptionProfile → Fields → Bool
unfolding keys_among
has_parameters kind profile payload =
    let names = required_keys (is_some kind) profile.version in
    keys_among names payload
    && has_all names payload
    && equals_text "agent-personal-vault" (get "app" payload)
    && equals_text (storage_of (is_some kind) profile) (get "storage" payload)
    && is_exactly profile.version (get "version" payload)
    && equals_text profile.kdf (get "kdf" payload)
    && equals_text "AES-256-GCM" (get "cipher" payload)
    && is_kind kind payload
    && is_exactly profile.iterations (get "iterations" payload)
    && (not (nat_eq profile.version 2)
        || (is_exactly_some profile.memory_kib (get "memory_kib" payload)
            && is_exactly_some profile.parallelism (get "parallelism" payload)))

-- What a decoded component must be.
pub record Bounds : Type 0 where
  pub exact : Option ℕ
  pub least : Option ℕ
  pub most : Option ℕ

-- `exact_bytes if exact_bytes is not None else max_bytes`
abbrev pub byte_limit : Bounds → Option ℕ
byte_limit b = elim b.exact [ some n ↦ some n | none ↦ b.most ]

abbrev pub too_long : Option ℕ → ℕ → Bool
too_long none n = false
too_long (some limit) n = ltb (((limit + 2) / 3) * 4) n

abbrev pub other_than : Option ℕ → ℕ → Bool
other_than none n = false
other_than (some m) n = not (nat_eq n m)

abbrev pub below : Option ℕ → ℕ → Bool
below none n = false
below (some m) n = ltb n m

abbrev pub above : Option ℕ → ℕ → Bool
above none n = false
above (some m) n = ltb m n

abbrev pub or_unsupported : {A : Type 0} → Option A → Result A
or_unsupported none = err unsupported
or_unsupported (some a) = ok a

abbrev pub text_of : Option Json → Option String
text_of (some (str s)) = some s
text_of _ = none
