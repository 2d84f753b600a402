-- ===== src/Tests/Vaults.antt =====
-- A vault that two holders of the same store write to.
use agent_personal_vault.Prelude.{
  ◌==◌, ◌⊎◌, inl, inr, ℕ, ◌+◌, ◌≤◌, ◌*◌, String, ◌≡◌, refl, true, false, none, some, Bool-cases,
}
use mathlib.Core.Logic.{◌↔◌}
use agent_personal_vault.Result.{Error, ok, err, os_error, conflict_error}
use agent_personal_vault.Python.Json.{Json, str, obj, Fields, end, field, null, arr, cons, nil}
use agent_personal_vault.Platform.{second}
use agent_personal_vault.Limits.{validate_json_resources, max_json_nodes}
use agent_personal_vault.Limits.Equivalence.{nodes, fits, validate_json_resources_iff}
use agent_personal_vault.Crypto.{argon2id_v2_profile, is_encrypted_payload}
use agent_personal_vault.Vault.Shape.{store_revision}
use agent_personal_vault.Vault.Host.{VaultHost, VaultHostLaws, SameVault}
use agent_personal_vault.Vault.Payload.{find_existing}
use agent_personal_vault.Vault.Store.{WriteOptions, plain_options, write_store}
use agent_personal_vault.Vault.Revision.{
  Replaced, Written, write_store_saves, write_store_keeps_profile,
}
use agent_personal_vault.Vault.Refused.{write_store_refused}
use agent_personal_vault.Vault.NextShape.{returned_store}
use agent_personal_vault.Vault.History.{
  History, start, wrote, AtRevision, revision_counts, stale_write_conflicts,
}
use agent_personal_vault.Vault.Context.{agent_context, check_summary, is_filled}
use agent_personal_vault.Vault.Secrecy.{
  FilledAlike, agent_context_hides_values, check_summary_hides_values,
}
use agent_personal_vault.Tests.VaultModel.{vault_model}
use agent_personal_vault.Tests.Desk.{platform}
use agent_personal_vault.Tests.Safe.{Safe, safe_host, safe_host-VaultHostLaws}

abbrev empty_safe : Safe
empty_safe = record { vault_file = none; clock = 10 * second; migrating = false }

-- A store with an address, at revision 0.
abbrev pub store_of : String → Fields
store_of email =
    field "schema" (str "job_hunting_profile")
      (field "fields" (obj (field "EMAIL" (str email) end)) end)

abbrev pub draft : Fields
draft = store_of "taro@example.test"

-- What the first holder gets back, and the vault behind the write.
abbrev saved : Fields
saved = returned_store draft "IIIIIIIIIII" 1

abbrev written_safe : Safe
written_safe = (write_store platform safe_host draft plain_options empty_safe).1

first_write :
    write_store platform safe_host draft plain_options empty_safe ≡ (ok saved, written_safe)
unfolding vault_model
first_write = refl

empty_safe-AtRevision : find_existing safe_host none empty_safe ≡ ok (none, 0)
unfolding vault_model
empty_safe-AtRevision = refl

one_write : History platform safe_host none empty_safe 1 0 written_safe
unfolding vault_model
one_write = wrote draft plain_options saved start refl refl first_write

revision_counts_example :
    (k : ℕ) × (1 ≤ k)
    × (k ≤ 1 + 0)
    × AtRevision platform safe_host safe_host-VaultHostLaws none (0 + k) written_safe
revision_counts_example =
    revision_counts platform safe_host safe_host-VaultHostLaws none 0 (none, empty_safe-AtRevision)
      one_write

draft-revision : store_revision draft ≡ ok 0
unfolding vault_model
draft-revision = refl

stale_write_conflicts_example :
    write_store platform safe_host draft plain_options written_safe
    ≡ (err (conflict_error "vault changed; reload and retry"), written_safe)
unfolding vault_model
stale_write_conflicts_example =
    stale_write_conflicts platform safe_host safe_host-VaultHostLaws none 0 draft plain_options
      (none, empty_safe-AtRevision) one_write draft-revision refl refl refl refl

draft-plain : is_encrypted_payload (obj draft) ≡ ok false
unfolding vault_model
draft-plain = refl

write_store_saves_example : Written safe_host plain_options draft empty_safe saved written_safe
write_store_saves_example =
    write_store_saves platform safe_host safe_host-VaultHostLaws draft plain_options empty_safe
      written_safe saved draft-plain first_write

-- An encrypted vault, and a write to it that asks for nothing.
abbrev secret_options : WriteOptions
secret_options = record {
  passphrase = some "correct horse battery";
  encrypted = some true;
  allow_weak = false;
  profile = none;
}

abbrev later_options : WriteOptions
later_options = record secret_options { encrypted = none }

abbrev secret_safe : Safe
secret_safe = (write_store platform safe_host draft secret_options empty_safe).1

abbrev rewritten_safe : Safe
rewritten_safe = (write_store platform safe_host saved later_options secret_safe).1

second_write :
    write_store platform safe_host saved later_options secret_safe
    ≡ (ok (returned_store saved "IIIIIIIIIII" 2), rewritten_safe)
unfolding vault_model
second_write = refl

secret_safe-profile :
    find_existing safe_host (some "correct horse battery") secret_safe
    ≡ ok (some argon2id_v2_profile, 1)
unfolding vault_model
secret_safe-profile = refl

saved-plain : is_encrypted_payload (obj saved) ≡ ok false
unfolding vault_model
saved-plain = refl

write_store_keeps_profile_example :
    find_existing safe_host (some "correct horse battery") rewritten_safe
    ≡ ok (some argon2id_v2_profile, 2)
write_store_keeps_profile_example =
    write_store_keeps_profile platform safe_host safe_host-VaultHostLaws saved later_options
      secret_safe rewritten_safe (returned_store saved "IIIIIIIIIII" 2) argon2id_v2_profile 1 refl
      refl saved-plain secret_safe-profile second_write

-- The same vault, where the directory cannot be synced: a write raises behind the replacement.
abbrev unsynced_host : VaultHost Safe
unsynced_host = record safe_host {
  write_vault = λ j w. (err (os_error "fsync"), (safe_host.write_vault j w).1);
}

unsynced_host-VaultHostLaws : VaultHostLaws unsynced_host
unsynced_host-VaultHostLaws = record {
  vault_written = λ j w e. absurd (never e);
  vault_raised = λ j w e _. inr (refl, refl);
  now-vault = λ w. record { exists = refl; content = refl };
  encrypt-vault = λ s pass weak p w.
      let same = safe_host-VaultHostLaws.encrypt-vault s pass weak p w in
      record { exists = same.exists; content = same.content };
  decrypt-encrypt = safe_host-VaultHostLaws.decrypt-encrypt;
}
  where
    never : {u : Unit {0}} {e : Error} → err e ≡ ok u → ⊥
    never h = cc

unsynced :
    write_store platform unsynced_host draft plain_options empty_safe
    ≡ (err (os_error "fsync"), written_safe)
unfolding vault_model
unsynced = refl

write_store_refused_example :
    SameVault unsynced_host empty_safe written_safe
    ⊎ Replaced unsynced_host plain_options draft empty_safe written_safe
write_store_refused_example =
    write_store_refused platform unsynced_host unsynced_host-VaultHostLaws draft plain_options
      empty_safe written_safe (os_error "fsync") draft-plain unsynced

-- Another address that fills the same field.
email_alike :
    (key : String)
    → is_filled platform (field "EMAIL" (str "hanako@example.test") end) key
      ≡ is_filled platform (field "EMAIL" (str "taro@example.test") end) key
unfolding vault_model
email_alike key = elim (Bool-cases ("EMAIL" == key)) [ inl e ↦ rw e refl | inr e ↦ rw e refl ]

pub drafts-FilledAlike : FilledAlike platform draft (store_of "hanako@example.test")
unfolding vault_model
drafts-FilledAlike = record {
  same_schema = refl;
  fields = field "EMAIL" (str "taro@example.test") end;
  fields' = field "EMAIL" (str "hanako@example.test") end;
  has_fields = refl;
  has_fields' = refl;
  alike = email_alike;
}

agent_context_hides_values_example :
    agent_context platform (store_of "hanako@example.test") false none
    ≡ agent_context platform draft false none
agent_context_hides_values_example =
    agent_context_hides_values platform draft (store_of "hanako@example.test") false none
      drafts-FilledAlike

check_summary_hides_values_example :
    check_summary platform (store_of "hanako@example.test") "/vault.json" "0o600"
    ≡ check_summary platform draft "/vault.json" "0o600"
check_summary_hides_values_example =
    check_summary_hides_values platform draft (store_of "hanako@example.test") "/vault.json" "0o600"
      drafts-FilledAlike

-- A nested value within the limits.
abbrev nested : Json
nested = arr (cons (obj draft) (cons null nil))

validate_json_resources_iff_example :
    (validate_json_resources nested ≡ ok tt)
    ↔ ((nodes nested ≤ max_json_nodes) × (fits nested 1 ≡ true))
validate_json_resources_iff_example = validate_json_resources_iff nested
