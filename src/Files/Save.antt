-- ===== src/Files/Save.antt =====
-- The writing of JSON files in agent_personal_vault/private_io.py.
use agent_personal_vault.Prelude.{ltb}
use agent_personal_vault.Result.{resource_limit_error, raise_if}
use agent_personal_vault.Exec.{Exec, lift, ◌>>◌}
use agent_personal_vault.Python.Json.{obj, Fields}
use agent_personal_vault.Limits.{validate_json_resources, max_private_json_bytes}
use agent_personal_vault.Files.{FileName, Files}

module _ {W B : Type 0} (f : Files W B) where
  unfoldable pub write_private_json : FileName → Fields → Exec W (Unit {0})
  write_private_json n payload = do
    lift (validate_json_resources (obj payload))
    lift (
        raise_if (ltb max_private_json_bytes (f.cipher.len (f.dumps_indented (obj payload))))
          (resource_limit_error "private state exceeds the supported size limit"))
    f.write_private_bytes n (f.dumps_indented (obj payload))
