-- ===== src/Migration/Journal.antt =====
-- The journal of agent_personal_vault/kdf_migration.py as JSON. Its dicts are written with their keys in
-- the order in which the source creates them.
use agent_personal_vault.Prelude.{
  suc, String, Bool, true, false, not, ◌&&◌, Option, none, some, List, [], ◌∷◌, ◌==◌, nat_eq,
  if◌then◌else◌,
}
use agent_personal_vault.Result.{Error, Result, ok, err, value_error, require, ◌>>=◌, ◌>>◌}
use agent_personal_vault.Python.Text.{size, all_chars, is_hex}
use agent_personal_vault.Python.Json.{
  pos, Json, int, str, arr, obj, Items, nil, cons, Fields, end, field, get, has, to_list,
}
use agent_personal_vault.Crypto.{equals_text, legacy_v1_profile, argon2id_v2_profile}
use agent_personal_vault.Crypto.Envelope.{keys_among, has_all}
use agent_personal_vault.Files.{Member, vault, consent, audit, has_member}
use agent_personal_vault.Migration.{
  Present, Stamp, Staged, Members, preparing, ready, MigrationJournal, member_name,
}

abbrev pub journal_schema : String
journal_schema = "apv-kdf-migration/v1"

abbrev pub journal_invalid : Error
journal_invalid = value_error "KDF migration journal is invalid"

-- The printing.
abbrev pub original_fields : Stamp → Fields → Fields
original_fields s rest =
    field "original_sha256" (str s.sha256) (field "original_size" (int (pos s.size)) rest)

abbrev pub staged_fields : Staged → Fields
staged_fields s = original_fields s.original (
    field "target_sha256" (str s.target.sha256) (
      field "target_size" (int (pos s.target.size)) (
        field "backup_sha256" (str s.backup.sha256)
          (field "backup_size" (int (pos s.backup.size)) end))))

abbrev pub entry_field : {A : Type 0} → (A → Fields) → String → Option A → Fields → Fields
entry_field print name none rest = rest
entry_field print name (some a) rest = field name (obj (print a)) rest

-- The members of the first journal are sorted by name; those of a ready one are in the order of the
-- originals.
abbrev pub members_fields : Members → Fields
members_fields (preparing d) =
    let print : Stamp → Fields = λ s. original_fields s end in
    entry_field print "audit" d.of_audit
      (entry_field print "consent" d.of_consent (entry_field print "vault" (some d.of_vault) end))
members_fields (ready d) = entry_field staged_fields "vault" (some d.of_vault) (
    entry_field staged_fields "consent" d.of_consent
      (entry_field staged_fields "audit" d.of_audit end))

abbrev pub state_name : Members → String
state_name (preparing _) = "preparing"
state_name (ready _) = "ready"

abbrev pub name_items : List Member → Items
name_items [] = nil
name_items (m ∷ ms) = cons (str (member_name m)) (name_items ms)

unfoldable pub journal_fields : MigrationJournal → Fields
journal_fields j = field "schema" (str journal_schema) (
    field "state" (str (state_name j.members)) (
      field "source_profile" (str legacy_v1_profile.name) (
        field "target_profile" (str argon2id_v2_profile.name) (
          field "members" (obj (members_fields j.members))
            (field "applied" (arr (name_items j.applied)) end)))))

abbrev pub journal_of : Members → List Member → Fields
journal_of members applied = journal_fields (record { members = members; applied = applied })

-- The reading.

-- `HASH_PATTERN.fullmatch`
unfoldable pub is_hash : String → Bool
is_hash s = nat_eq (size s) 64 && all_chars is_hex s

-- `set(d) == names`
abbrev pub keys_are : List String → Fields → Bool
keys_are names d = keys_among names d && has_all names d

abbrev pub read_stamp : Option Json → Option Json → Result Stamp
read_stamp (some (str digest)) (some (int (pos (suc n)))) =
    if is_hash digest then ok (record { sha256 = digest; size = suc n }) else err journal_invalid
read_stamp _ _ = err journal_invalid

abbrev pub original_keys : List String
original_keys = "original_sha256" ∷ "original_size" ∷ []

abbrev pub staged_keys : List String
staged_keys =
    "original_sha256" ∷ "original_size" ∷ "target_sha256" ∷ "target_size" ∷ "backup_sha256"
    ∷ "backup_size" ∷ []

unfoldable pub read_original : Json → Result Stamp
read_original (obj d) = do
  require (keys_are original_keys d) journal_invalid
  read_stamp (get "original_sha256" d) (get "original_size" d)
read_original _ = err journal_invalid

unfoldable pub read_staged : Json → Result Staged
read_staged (obj d) = do
  require (keys_are staged_keys d) journal_invalid
  original ← read_stamp (get "original_sha256" d) (get "original_size" d)
  target ← read_stamp (get "target_sha256" d) (get "target_size" d)
  backup ← read_stamp (get "backup_sha256" d) (get "backup_size" d)
  ok (record { original = original; target = target; backup = backup })
read_staged _ = err journal_invalid

abbrev pub read_entry : {A : Type 0} → (Json → Result A) → Option Json → Result (Option A)
read_entry read none = ok none
read_entry read (some j) = read j >>= λ a. ok (some a)

abbrev pub required_entry : {A : Type 0} → (Json → Result A) → Option Json → Result A
required_entry read none = err journal_invalid
required_entry read (some j) = read j

-- The loop over the records, which all raise the same error.
unfoldable pub read_present : {A : Type 0} → (Json → Result A) → Fields → Result (Present A)
read_present read d = do
  for_vault ← required_entry read (get "vault" d)
  for_consent ← read_entry read (get "consent" d)
  for_audit ← read_entry read (get "audit" d)
  ok (record { of_vault = for_vault; of_consent = for_consent; of_audit = for_audit })

-- `payload.get("state") not in {"preparing", "ready"}`: whether it is ready
abbrev pub read_state : Option Json → Result Bool
read_state (some (str s)) =
    if s == "preparing" then ok false else if s == "ready" then ok true else err journal_invalid
read_state (some (arr _)) = err (Error.type_error)
read_state (some (obj _)) = err (Error.type_error)
read_state _ = err journal_invalid

abbrev pub dict_of : Option Json → Result Fields
dict_of (some (obj d)) = ok d
dict_of _ = err journal_invalid

-- A member that `members` has.
abbrev pub read_name : Fields → String → Result Member
read_name members s =
    if has s members
    then (if s == "vault"
        then ok vault
        else if s == "consent"
        then ok consent
        else if s == "audit"
        then ok audit
        else err journal_invalid)
    else err journal_invalid

-- The applied names, which are distinct and among the members.
unfoldable pub read_names : Fields → List Json → Result (List Member)
read_names members [] = ok []
read_names members (str s ∷ js) = do
  m ← read_name members s
  ms ← read_names members js
  require (not (has_member m ms)) journal_invalid
  ok (m ∷ ms)
read_names members (j ∷ js) = err journal_invalid

abbrev pub is_hashable : Json → Bool
is_hashable (arr _) = false
is_hashable (obj _) = false
is_hashable _ = true

abbrev pub all_hashable : List Json → Bool
all_hashable [] = true
all_hashable (j ∷ js) = is_hashable j && all_hashable js

abbrev pub read_applied : Fields → Option Json → Result (List Member)
read_applied members (some (arr js)) =
    require (all_hashable (to_list js)) (Error.type_error) >> read_names members (to_list js)
read_applied members _ = err journal_invalid

abbrev pub read_members : Bool → Fields → Result Members
read_members true d = read_present read_staged d >>= λ m. ok (ready m)
read_members false d = read_present read_original d >>= λ m. ok (preparing m)

abbrev pub journal_keys : List String
journal_keys = "schema" ∷ "state" ∷ "source_profile" ∷ "target_profile" ∷ "members" ∷ "applied" ∷ []

-- `_validate_journal`
unfoldable pub validate_journal : Json → Result MigrationJournal
unfolding read_present read_original read_staged read_names
validate_journal (obj d) = do
  require (keys_are journal_keys d) journal_invalid
  require (equals_text journal_schema (get "schema" d)) journal_invalid
  is_ready ← read_state (get "state" d)
  require (equals_text (legacy_v1_profile.name) (get "source_profile" d)) journal_invalid
  require (equals_text (argon2id_v2_profile.name) (get "target_profile" d)) journal_invalid
  members ← dict_of (get "members" d)
  require (keys_among ("vault" ∷ "consent" ∷ "audit" ∷ []) members) journal_invalid
  require (has "vault" members) journal_invalid
  applied ← read_applied members (get "applied" d)
  read ← read_members is_ready members
  ok (record { members = read; applied = applied })
validate_journal _ = err journal_invalid
