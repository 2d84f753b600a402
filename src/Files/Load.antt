-- ===== src/Files/Load.antt =====
-- The reading of JSON files in agent_personal_vault/private_io.py.
use agent_personal_vault.Prelude.{◌≡◌, refl, Option, none, some}
use agent_personal_vault.Result.{
  Result, Error, ok, err, resource_limit_error, instead_of_recursion_error, ◌>>=◌, ◌>>◌,
}
use agent_personal_vault.Python.Json.{Json}
use agent_personal_vault.Limits.{validate_json_resources, max_private_json_bytes}
use agent_personal_vault.Files.{FileName, Files}

-- From the error that is raised if there is no value.
abbrev pub decoded : Error → Option Json → Result Json
decoded e none = err e
decoded e (some j) = ok j

module _ {W B : Type 0} (f : Files W B) where
  -- `json.loads(raw.decode("utf-8"))`
  abbrev pub parse : B → Result Json
  parse raw = decoded (f.cipher.loads_error raw) (f.cipher.loads raw)

  -- the same, with `except RecursionError`
  abbrev pub parse_bounded : B → Result Json
  parse_bounded raw =
      decoded
        (instead_of_recursion_error
          (resource_limit_error "JSON state exceeds the supported depth limit")
          (f.cipher.loads_error raw))
        (f.cipher.loads raw)

  unfoldable pub read_private_json : FileName → W → Result Json
  read_private_json n w = do
    raw ← f.read_private_bytes n max_private_json_bytes w
    payload ← parse_bounded raw
    validate_json_resources payload
    ok payload

  -- A read that succeeds, from its steps.
  pub read_private_json-reads :
      (n : FileName) (w : W) (raw : B) (j : Json)
      → f.read_private_bytes n max_private_json_bytes w ≡ ok raw
      → f.cipher.loads raw ≡ some j
      → validate_json_resources j ≡ ok tt
      → read_private_json n w ≡ ok j
  unfolding read_private_json ◌>>=◌
  read_private_json-reads n w raw j reads loads valid = rw (reads, loads, valid) refl
