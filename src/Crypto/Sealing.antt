-- ===== src/Crypto/Sealing.antt =====
-- What an encryption of crypto_store.py has found when it returns.
use agent_personal_vault.Prelude.{
  String, ◌≡◌, refl, subst, sym, Bool, true, false, none, some, ◌==◌, ltb,
}
use agent_personal_vault.Result.{ok, >>=-eq_ok, raise_if-eq_ok, require-eq_ok, ok_inj}
use agent_personal_vault.Python.Json.{Json, str, obj, Fields, get}
use agent_personal_vault.Crypto.{EncryptionProfile}
use agent_personal_vault.Crypto.Equal.{is_supported}
use agent_personal_vault.Crypto.Cipher.{Cipher}
use agent_personal_vault.Crypto.Envelope.{max_encrypted_plaintext_bytes}
use agent_personal_vault.Crypto.Codec.{envelope_of, derive_key}
use agent_personal_vault.Crypto.Store.{
  seal_parts, encrypt_store_payload, is_kind_name, encrypt_sidecar_payload,
}

-- What an encryption that returns has found.
pub record Sealing {B : Type 0} (c : Cipher B) (passphrase : String) (p : EncryptionProfile)
    (salt plaintext : B) : Type 0 where
  pub given : (passphrase == "") ≡ false
  pub supported : is_supported p ≡ true
  pub available : c.available ≡ true
  pub key : B
  pub derives : derive_key c p salt passphrase ≡ ok key
  pub small : ltb max_encrypted_plaintext_bytes (c.len plaintext) ≡ false

obj_inj : {d d' : Fields} → obj d ≡ obj d' → d ≡ d'
obj_inj e = cc

module _ {B : Type 0} (c : Cipher B) where
  -- An encryption of a store that returns has sealed it.
  pub encrypt_store-Sealing :
      (store : Fields) (passphrase : String) (weak : Bool) (p : EncryptionProfile) (salt nonce : B)
      (j : Json)
      → encrypt_store_payload c store passphrase weak p salt nonce ≡ ok j
      → (s : Sealing c passphrase p salt (c.dumps store)) × (j
          ≡ obj (envelope_of c none (seal_parts c none p s.key salt nonce (c.dumps store))))
  unfolding encrypt_store_payload
  encrypt_store-Sealing store passphrase weak p salt nonce j e =
      let (_, given, e1) = >>=-eq_ok _ _ e in
      let (_, supported, e2) = >>=-eq_ok _ _ e1 in
      let (_, strong, e3) = >>=-eq_ok _ _ e2 in
      let (_, available, e4) = >>=-eq_ok _ _ e3 in
      let (key, derives, e5) = >>=-eq_ok _ _ e4 in
      let (_, small, e6) = >>=-eq_ok _ _ e5 in
      (
        record {
          given = raise_if-eq_ok _ _ given;
          supported = require-eq_ok _ _ supported;
          available = require-eq_ok _ _ available;
          key = key;
          derives = derives;
          small = raise_if-eq_ok _ _ small;
        },
        sym (ok_inj e6),
      )

  pub encrypt_sidecar-Sealing :
      (plaintext : B) (passphrase kind : String) (p : EncryptionProfile) (salt nonce : B) (j : Json)
      → encrypt_sidecar_payload c plaintext passphrase kind p salt nonce ≡ ok j
      → (is_kind_name kind ≡ true)
        × (s : Sealing c passphrase p salt plaintext) × (j
            ≡ obj
                (envelope_of c (some kind) (seal_parts c (some kind) p s.key salt nonce plaintext)))
  unfolding encrypt_sidecar_payload
  encrypt_sidecar-Sealing plaintext passphrase kind p salt nonce j e =
      let (_, given, e1) = >>=-eq_ok _ _ e in
      let (_, named, e2) = >>=-eq_ok _ _ e1 in
      let (_, supported, e3) = >>=-eq_ok _ _ e2 in
      let (_, small, e4) = >>=-eq_ok _ _ e3 in
      let (_, available, e5) = >>=-eq_ok _ _ e4 in
      let (key, derives, e6) = >>=-eq_ok _ _ e5 in
      (
        require-eq_ok _ _ named,
        record {
          given = raise_if-eq_ok _ _ given;
          supported = require-eq_ok _ _ supported;
          available = require-eq_ok _ _ available;
          key = key;
          derives = derives;
          small = raise_if-eq_ok _ _ small;
        },
        sym (ok_inj e6),
      )

  -- A sidecar's envelope names its kind.
  pub encrypt_sidecar-kind :
      (plaintext : B) (passphrase kind : String) (p : EncryptionProfile) (salt nonce : B)
      (d : Fields)
      → encrypt_sidecar_payload c plaintext passphrase kind p salt nonce ≡ ok (obj d)
      → get "kind" d ≡ some (str kind)
  unfolding envelope_of get
  encrypt_sidecar-kind plaintext passphrase kind p salt nonce d e =
      let (_, s, written) =
        encrypt_sidecar-Sealing plaintext passphrase kind p salt nonce (obj d) e in
      subst (λ x. get "kind" x ≡ some (str kind)) (sym (obj_inj written)) refl
