-- ===== src/Sidecar/Read.antt =====
-- The reading of a sidecar in agent_personal_vault/sidecar_store.py.
use agent_personal_vault.Prelude.{ℕ, ◌+◌, ◌*◌, ◌/◌, String, Option, none, some, ltb, if◌then◌else◌}
use agent_personal_vault.Result.{
  Result, ok, value_error, resource_limit_error, require, raise_if, on_decode_error, ◌>>=◌, ◌>>◌,
}
use agent_personal_vault.Python.Json.{Json}
use agent_personal_vault.Limits.{validate_json_resources, max_private_json_bytes}
use agent_personal_vault.Crypto.{is_encrypted_sidecar_payload}
use agent_personal_vault.Crypto.Store.{decrypt_sidecar_payload}
use agent_personal_vault.Files.{FileName, Files}
use agent_personal_vault.Files.Load.{parse}
use agent_personal_vault.Sidecar.{required_passphrase}

abbrev pub smaller : ℕ → ℕ → ℕ
smaller a b = if ltb b a then b else a

abbrev pub larger : ℕ → ℕ → ℕ
larger a b = if ltb a b then b else a

-- `encrypted_limit`
abbrev pub encrypted_limit : ℕ → ℕ
encrypted_limit max_bytes = smaller max_private_json_bytes (((max_bytes + 18) / 3) * 4 + 2048)

module _ {W B : Type 0} (f : Files W B) where
  -- `if len(raw) > max_bytes: raise …` and `return raw`
  abbrev pub bounded_bytes : String → ℕ → B → Result B
  bounded_bytes message max_bytes raw = do
    raise_if (ltb max_bytes (f.cipher.len raw)) (resource_limit_error message)
    ok raw

  abbrev pub plain_bytes : ℕ → B → Result B
  plain_bytes = bounded_bytes "sidecar exceeds the supported size limit"

  unfoldable pub open_sidecar : String → Option String → ℕ → Json → Result B
  open_sidecar kind passphrase max_bytes envelope = do
    named ← is_encrypted_sidecar_payload (some kind) envelope
    require named (value_error "encrypted sidecar kind mismatch")
    selected ← required_passphrase passphrase f.default_passphrase
    plaintext ← decrypt_sidecar_payload f.cipher envelope selected kind
    bounded_bytes "decrypted sidecar exceeds the supported size limit" max_bytes plaintext

  -- What is read is plain unless it is the envelope of a sidecar; text that is no JSON is plain, and
  -- what else `json.loads` raises is raised.
  unfoldable pub decode_loaded : String → Option String → ℕ → B → Option Json → Result B
  decode_loaded kind passphrase max_bytes raw none =
      on_decode_error (plain_bytes max_bytes raw) (f.cipher.loads_error raw)
  decode_loaded kind passphrase max_bytes raw (some envelope) = do
    encrypted ← is_encrypted_sidecar_payload none envelope
    if encrypted then open_sidecar kind passphrase max_bytes envelope else plain_bytes max_bytes raw

  unfoldable pub decode_sidecar : String → Option String → ℕ → B → Result B
  unfolding decode_loaded
  decode_sidecar kind passphrase max_bytes raw =
      decode_loaded kind passphrase max_bytes raw (f.cipher.loads raw)

  unfoldable pub read_sidecar_bytes : FileName → String → Option String → ℕ → W → Result B
  unfolding decode_sidecar decode_loaded open_sidecar
  read_sidecar_bytes path kind passphrase max_bytes w = do
    raw ← f.read_private_bytes path (larger max_bytes (encrypted_limit max_bytes)) w
    decode_sidecar kind passphrase max_bytes raw

  unfoldable pub read_sidecar_json : FileName → String → Option String → W → Result Json
  read_sidecar_json path kind passphrase w = do
    plaintext ← read_sidecar_bytes path kind passphrase max_private_json_bytes w
    payload ← parse f plaintext
    validate_json_resources payload
    ok payload
