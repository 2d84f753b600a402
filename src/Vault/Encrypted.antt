-- ===== src/Vault/Encrypted.antt =====
-- agent_personal_vault/vault.py over crypto_store.py: the storage of a vault whose envelopes are made
-- and opened by `encrypt_store_payload` and `decrypt_store_payload`.
use agent_personal_vault.Prelude.{ℕ, String, ◌≡◌, ◌∙◌, inl, inr, Bool}
use agent_personal_vault.Exec.{Exec}
use agent_personal_vault.Python.Json.{Json, Fields}
use agent_personal_vault.Crypto.{EncryptionProfile}
use agent_personal_vault.Crypto.Cipher.{Cipher, CipherLaws}
use agent_personal_vault.Crypto.Store.{encrypt_store_payload, decrypt_store_payload}
use agent_personal_vault.Crypto.RoundTrip.{
  decrypt-encrypt_store_payload, encrypt_store_payload-profile,
}
use agent_personal_vault.Vault.Host.{VaultHost, VaultHostLaws, SameVault}

-- `os.urandom`
abbrev pub Random : Type 0 → Type 0 → Type 0
Random B W = ℕ → W → B × W

-- The bytes are as many as asked for, and the vault file is left alone.
pub record RandomLaws {B W : Type 0} (h : VaultHost W) (c : Cipher B) (urandom : Random B W)
    : Type 0 where
  pub random_size : (n : ℕ) (w : W) → c.len (urandom n w).0 ≡ n
  pub random-vault : (n : ℕ) (w : W) → SameVault h w (urandom n w).1

module _ {B W : Type 0} (h : VaultHost W) (c : Cipher B) (urandom : Random B W) where
  -- `encrypt_store_payload`, which draws the salt and then the nonce
  unfoldable pub encrypt_store : Fields → String → Bool → EncryptionProfile → Exec W Json
  encrypt_store store passphrase weak p w =
      let (salt, w1) = urandom 16 w in
      let (nonce, w2) = urandom 12 w1 in
      (encrypt_store_payload c store passphrase weak p salt nonce, w2)

  unfoldable pub with_crypto : VaultHost W
  with_crypto = record h {
    float_equals = c.float_equals;
    decrypt = decrypt_store_payload c;
    encrypt = encrypt_store;
  }

  module _ (file : VaultHostLaws h) (random : RandomLaws h c urandom) (laws : CipherLaws c) where
    same_trans : {u v w : W} → SameVault h u v → SameVault h v w → SameVault h u w
    same_trans a b = record { exists = b.exists ∙ a.exists; content = b.content ∙ a.content }

    -- If the file keeps what is written, the random bytes are as many as asked for, and the cipher
    -- opens what it sealed, then the storage over the cipher keeps the laws of a vault's storage: among
    -- them, what it encrypts is an encrypted store of the profile that was asked for, and decrypts under
    -- the passphrase to the store, with the keys of each dict in order.
    pub with_crypto-VaultHostLaws : VaultHostLaws with_crypto
    unfolding with_crypto encrypt_store
    with_crypto-VaultHostLaws = record {
      vault_written = file.vault_written;
      vault_raised = λ j w e raised. elim (file.vault_raised j w e raised) [
        | inl same ↦ inl (record { exists = same.exists; content = same.content })
        | inr replaced ↦ inr replaced
      ];
      now-vault =
          λ w. record { exists = (file.now-vault w).exists; content = (file.now-vault w).content };
      encrypt-vault = λ s pass weak p w.
          let same =
            same_trans (random.random-vault 16 w) (random.random-vault 12 (urandom 16 w).1) in
          record { exists = same.exists; content = same.content };
      decrypt-encrypt = λ s pass weak p w j e.
          let (salt, w1) = urandom 16 w in
          let nonce = (urandom 12 w1).0 in
          let (encrypted, profile) =
            encrypt_store_payload-profile c laws s pass weak p salt nonce j e in
          (
            encrypted,
            profile,
            decrypt-encrypt_store_payload c laws s pass weak p salt nonce j
                (random.random_size 16 w) (random.random_size 12 w1) e,
          );
    }
