-- ===== src/Migration.antt =====
-- agent_personal_vault/kdf_migration.py: the members of a migration and its journal.
--
-- A dict over the names of members that has the vault is a record with one entry for each member; it is
-- gone through in the order of `MEMBER_NAMES`.
pub mod Each
pub mod Journal
pub mod Targets
pub mod Entries
pub mod Checks
pub mod Staging
pub mod Resume
pub mod Rollback
pub mod Upgrade
pub mod Loops
pub mod Stuck
pub mod Printed
pub mod Held
pub mod Kept
pub mod Cleanup
pub mod Recovery
pub mod Resumed
pub mod Outcome
pub mod Restored
pub mod RolledBack
use agent_personal_vault.Prelude.{
  ℕ, String, Bool, true, false, ◌&&◌, Option, none, some, List, [], ◌∷◌, ◌++◌,
}
use agent_personal_vault.Result.{Error, Result, ok, err, key_error, ◌>>=◌}
use agent_personal_vault.Files.{Member, vault, consent, audit, Files}

-- A dict with the key `vault`, and perhaps the two others.
pub record Present (A : Type 0) : Type 0 where
  pub of_vault : A
  pub of_consent : Option A
  pub of_audit : Option A

abbrev pub listed : {A : Type 0} → Member → Option A → List Member
listed m none = []
listed m (some _) = m ∷ []

-- `list(d)`, and `sorted(d)`
abbrev pub names : {A : Type 0} → Present A → List Member
names d = vault ∷ (listed consent d.of_consent ++ listed audit d.of_audit)

abbrev pub sorted_names : {A : Type 0} → Present A → List Member
sorted_names d = listed audit d.of_audit ++ (listed consent d.of_consent ++ (vault ∷ []))

abbrev pub same_presence : {A C : Type 0} → Option A → Option C → Bool
same_presence none none = true
same_presence (some _) (some _) = true
same_presence _ _ = false

-- `set(d) == set(e)`
abbrev pub same_names : {A C : Type 0} → Present A → Present C → Bool
same_names d e = same_presence d.of_consent e.of_consent && same_presence d.of_audit e.of_audit

-- The entries of two dicts under each name of the first; a name that the second lacks raises.
abbrev pub zip_entry : {A C : Type 0} → String → Option A → Option C → Result (Option (A × C))
zip_entry name none _ = ok none
zip_entry name (some a) (some c) = ok (some (a, c))
zip_entry name (some a) none = err (key_error name)

abbrev pub zip_present : {A C : Type 0} → Present A → Present C → Result (Present (A × C))
zip_present d e = zip_entry "consent" d.of_consent e.of_consent >>= λ for_consent.
    zip_entry "audit" d.of_audit e.of_audit >>= λ for_audit.
    ok (record {
      of_vault = (d.of_vault, e.of_vault);
      of_consent = for_consent;
      of_audit = for_audit;
    })

abbrev pub map_option : {A C : Type 0} → (A → C) → Option A → Option C
map_option g none = none
map_option g (some a) = some (g a)

abbrev pub map_present : {A C : Type 0} → (A → C) → Present A → Present C
map_present g d = record {
  of_vault = g d.of_vault;
  of_consent = map_option g d.of_consent;
  of_audit = map_option g d.of_audit;
}

-- A digest and a size, as the journal has them of a file.
pub record Stamp : Type 0 where
  pub sha256 : String
  pub size : ℕ

-- What the journal has of a member once it is ready.
pub record Staged : Type 0 where
  pub original : Stamp
  pub target : Stamp
  pub backup : Stamp

-- The members by the state of the journal.
pub data Members : Type 0 where
  preparing : Present Stamp → Members
  ready : Present Staged → Members

-- A journal's schema and profiles are constants.
pub record MigrationJournal : Type 0 where
  pub members : Members
  pub applied : List Member

abbrev pub member_name : Member → String
member_name vault = "vault"
member_name consent = "consent"
member_name audit = "audit"

module _ {W B : Type 0} (f : Files W B) where
  abbrev pub stamp : B → Stamp
  stamp payload = record { sha256 = f.sha256 payload; size = f.cipher.len payload }
