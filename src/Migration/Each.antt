-- ===== src/Migration/Each.antt =====
-- Loops of agent_personal_vault/kdf_migration.py over the members of a migration.
use agent_personal_vault.Prelude.{Option, none, some}
use agent_personal_vault.Exec.{Exec, pure, ◌>>=◌}
use agent_personal_vault.Files.{Member, vault, consent, audit}
use agent_personal_vault.Migration.{Present}

module _ {W : Type 0} where
  abbrev pub each_entry : {A C : Type 0} → (A → Exec W C) → Option A → Exec W (Option C)
  each_entry g none = pure none
  each_entry g (some a) = do c ← g a; pure (some c)

  -- `{name: g(name, d[name]) for name in d}`
  abbrev pub each : {A C : Type 0} → (Member → A → Exec W C) → Present A → Exec W (Present C)
  each g d = do
    for_vault ← g vault d.of_vault
    for_consent ← each_entry (g consent) d.of_consent
    for_audit ← each_entry (g audit) d.of_audit
    pure (record { of_vault = for_vault; of_consent = for_consent; of_audit = for_audit })
