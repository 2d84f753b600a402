-- ===== src/Tests/Safe.antt =====
-- A vault host in memory that meets the laws which the theorems assume. Its envelope keeps the store
-- beside the passphrase.
use mathlib.Core.Path.{subst₂}
use agent_personal_vault.Prelude.{
  ℕ, String, ◌≡◌, refl, sym, Bool, true, false, Option, none, some, ◌==◌, eq_refl, if◌then◌else◌,
}
use agent_personal_vault.Result.{
  Error, Result, ok, err, os_error, value_error, decryption_error, ok_inj,
}
use agent_personal_vault.Python.Json.{pos, Json, int, str, obj, Fields, end, field, get}
use agent_personal_vault.Crypto.{
  EncryptionProfile, argon2id_v2_profile, is_encrypted_payload, encryption_profile,
}
use agent_personal_vault.Python.Sorted.{sorted_fields}
use agent_personal_vault.Crypto.Equal.{profile_eq, profile_eq-eq}
use agent_personal_vault.Vault.Host.{VaultHost, VaultHostLaws, SameVault}

pub record Safe : Type 0 where
  pub vault_file : Option Json
  pub clock : ℕ
  pub migrating : Bool

abbrev envelope : Fields → String → Json
envelope s pass = obj (
    field "storage" (str "encrypted-json-v2")
      (field "version" (int (pos 2)) (field "pass" (str pass) (field "store" (obj s) end))))

abbrev open_envelope : Option Json → Option Json → String → Result Json
open_envelope (some (str p)) (some (obj s)) pass =
    if p == pass then ok (obj (sorted_fields s)) else err (decryption_error "invalid passphrase")
open_envelope _ _ pass = err (decryption_error "invalid")

abbrev open_json : Json → String → Result Json
open_json (obj d) pass = open_envelope (get "pass" d) (get "store" d) pass
open_json _ pass = err (decryption_error "invalid")

abbrev seal_if : Bool → Fields → String → Safe → Result Json × Safe
seal_if true s pass w = (ok (envelope s pass), w)
seal_if false s pass w = (err (value_error "encryption profile is unsupported"), w)

abbrev pub safe_host : VaultHost Safe
safe_host = record {
  ensure_dir = λ w. ok tt;
  write_guard = λ w. elim w.migrating [ true ↦ err (os_error "migration") | false ↦ ok tt ];
  store_lock = λ w. ok tt;
  vault_exists = λ w. elim w.vault_file [ none ↦ ok false | some _ ↦ ok true ];
  read_vault = λ w. elim w.vault_file [ none ↦ err (os_error "missing") | some j ↦ ok j ];
  write_vault = λ j w. (ok tt, record w { vault_file = some j });
  now = λ w. (w.clock, w);
  default_passphrase = none;
  float_equals = λ t n. false;
  decrypt = open_json;
  encrypt = λ s pass weak p w. seal_if (profile_eq p argon2id_v2_profile) s pass w;
}

-- An envelope is of the one profile, and opens with its passphrase.
abbrev Opened : Fields → String → EncryptionProfile → Json → Type 0
Opened s pass p j =
    (is_encrypted_payload j ≡ ok true)
    × (encryption_profile safe_host.float_equals j ≡ ok p)
    × (open_json j pass ≡ ok (obj (sorted_fields s)))

envelope-Opened : (s : Fields) (pass : String) → Opened s pass argon2id_v2_profile (envelope s pass)
unfolding is_encrypted_payload encryption_profile get
envelope-Opened s pass = (refl, refl, rw eq_refl refl)

seal_if-Opened :
    (b : Bool) (s : Fields) (pass : String) (p : EncryptionProfile) (w : Safe) (j : Json)
    → profile_eq p argon2id_v2_profile ≡ b
    → (seal_if b s pass w).0 ≡ ok j
    → Opened s pass p j
seal_if-Opened true s pass p w j same e =
    subst₂ (Opened s pass) (sym (profile_eq-eq p argon2id_v2_profile same)) (ok_inj e)
      (envelope-Opened s pass)
seal_if-Opened false s pass p w j other e = absurd (cc)

seal_if-vault :
    (b : Bool) (s : Fields) (pass : String) (w : Safe)
    → SameVault safe_host w (seal_if b s pass w).1
seal_if-vault true s pass w = record { exists = refl; content = refl }
seal_if-vault false s pass w = record { exists = refl; content = refl }

pub safe_host-VaultHostLaws : VaultHostLaws safe_host
safe_host-VaultHostLaws = record {
  vault_written = λ j w _. (refl, refl);
  vault_raised = λ j w e h. absurd (never h);
  now-vault = λ w. record { exists = refl; content = refl };
  encrypt-vault = λ s pass weak p w. seal_if-vault _ s pass w;
  decrypt-encrypt = λ s pass weak p w j e. seal_if-Opened _ s pass p w j refl e;
}
  where
    never : {u : Unit {0}} {e : Error} → ok u ≡ err e → ⊥
    never h = cc
