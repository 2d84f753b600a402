-- ===== src/Vault/Host.antt =====
-- What the vault store of agent_personal_vault/vault.py uses of the modules below it, for one vault
-- path: `migration_guard.py` and `private_io.py` keep the file, `crypto_store.py` the envelope.
use agent_personal_vault.Prelude.{ℕ, String, ◌≡◌, ◌⊎◌, Bool, true, Option}
use agent_personal_vault.Result.{Error, Result, ok, err}
use agent_personal_vault.Exec.{Exec}
use agent_personal_vault.Python.Json.{Json, obj, Fields}
use agent_personal_vault.Python.Sorted.{sorted_fields}
use agent_personal_vault.Crypto.{EncryptionProfile, is_encrypted_payload, encryption_profile}

pub record VaultHost (W : Type 0) : Type 0 where
  -- `ensure_private_directory` of the directory
  pub ensure_dir : W → Result (Unit {0})
  -- `kdf_write_guard`: raises while a migration is incomplete
  pub write_guard : W → Result (Unit {0})
  -- `_store_lock`: raises if the lock file cannot be opened
  pub store_lock : W → Result (Unit {0})
  -- `private_file_exists`, `read_private_json` and `write_private_json` for the vault file
  pub vault_exists : W → Result Bool
  pub read_vault : W → Result Json
  pub write_vault : Json → Exec W (Unit {0})
  -- `datetime.now(timezone.utc)`
  pub now : W → ℕ × W
  -- `AGENT_PERSONAL_VAULT_PASSPHRASE`
  pub default_passphrase : Option String
  -- whether a float, by its text, is equal to a number
  pub float_equals : String → ℕ → Bool
  -- `decrypt_store_payload`
  pub decrypt : Json → String → Result Json
  -- `encrypt_store_payload`, which draws a salt and a nonce; the flag allows a weak passphrase
  pub encrypt : Fields → String → Bool → EncryptionProfile → Exec W Json

-- The vault file reads the same.
pub record SameVault {W : Type 0} (h : VaultHost W) (w w' : W) : Type 0 where
  pub exists : h.vault_exists w' ≡ h.vault_exists w
  pub content : h.read_vault w' ≡ h.read_vault w

-- A write that returns is read back; one that raises has replaced the file or has left it as it was,
-- since the directory is synced behind the replacement; the clock and the random source leave the file
-- alone; and the passphrase that encrypted a store decrypts it, with the keys of each dict in order.
pub record VaultHostLaws {W : Type 0} (h : VaultHost W) : Type 0 where
  pub vault_written :
      (j : Json) (w : W)
      → (h.write_vault j w).0 ≡ ok tt
      → (h.vault_exists (h.write_vault j w).1 ≡ ok true)
        × (h.read_vault (h.write_vault j w).1 ≡ ok j)
  pub vault_raised :
      (j : Json) (w : W) (e : Error)
      → (h.write_vault j w).0 ≡ err e
      → SameVault h w (h.write_vault j w).1
        ⊎ ((h.vault_exists (h.write_vault j w).1 ≡ ok true)
            × (h.read_vault (h.write_vault j w).1 ≡ ok j))
  pub now-vault : (w : W) → SameVault h w (h.now w).1
  pub encrypt-vault :
      (s : Fields) (pass : String) (weak : Bool) (p : EncryptionProfile) (w : W)
      → SameVault h w (h.encrypt s pass weak p w).1
  pub decrypt-encrypt :
      (s : Fields) (pass : String) (weak : Bool) (p : EncryptionProfile) (w : W) (j : Json)
      → (h.encrypt s pass weak p w).0 ≡ ok j
      → (is_encrypted_payload j ≡ ok true)
        × (encryption_profile (h.float_equals) j ≡ ok p)
        × (h.decrypt j pass ≡ ok (obj (sorted_fields s)))
