-- ===== src/Vault/Store.antt =====
-- agent_personal_vault/vault.py: reading, creating and writing the store.
--
-- `write_store` changes the dictionary that it is given; here it returns the changed one.
use agent_personal_vault.Prelude.{
  ℕ, ◌+◌, String, Bool, true, false, Option, none, some, [], ◌∷◌, ◌||◌, not, nat_eq, if◌then◌else◌,
}
use agent_personal_vault.Result.{ok, os_error, conflict_error, raise_if}
use agent_personal_vault.Exec.{Exec, pure, raise, lift, reads, ◌>>=◌, ◌>>◌}
use agent_personal_vault.Python.Json.{pos, Json, int, str, obj, Fields, end, field, put}
use agent_personal_vault.Platform.{Platform, whole_second}
use agent_personal_vault.Schemas.{Schema}
use agent_personal_vault.Crypto.{EncryptionProfile, latest_encryption_profile}
use agent_personal_vault.Vault.Host.{VaultHost}
use agent_personal_vault.Vault.Shape.{get_schema, store_revision, fields_of}
use agent_personal_vault.Vault.Payload.{
  usable, or_raise, write_needs_passphrase, read_normalized_store, find_existing,
}

pub record WriteOptions : Type 0 where
  pub passphrase : Option String
  pub encrypted : Option Bool
  pub allow_weak : Bool
  pub profile : Option EncryptionProfile

abbrev pub plain_options : WriteOptions
plain_options = record { passphrase = none; encrypted = none; allow_weak = false; profile = none }

abbrev pub or_else : {A : Type 0} → Option A → A → A
or_else none d = d
or_else (some a) d = a

abbrev pub is_some : {A : Type 0} → Option A → Bool
is_some none = false
is_some (some a) = true

-- `next_store`
abbrev pub next_store : Fields → Fields → String → ℕ → Fields
next_store store fields now revision =
    put "revision" (int (pos revision))
      (put "updated_at" (str now) (put "fields" (obj fields) store))

-- `{key: "" for key in schema}`
abbrev pub empty_fields : Schema → Fields
empty_fields [] = end
empty_fields ((key, _) ∷ schema) = field key (str "") (empty_fields schema)

abbrev pub blank_dict : String → String → String → Schema → Fields
blank_dict schema_name created_at updated_at schema = field "classification" (str "LOCAL_PRIVATE") (
    field "sensitivity" (str "high") (
      field "app" (str "agent-personal-vault") (
        field "schema" (str schema_name) (
          field "created_at" (str created_at) (
            field "updated_at" (str updated_at)
              (field "revision" (int (pos 0)) (field "fields" (obj (empty_fields schema)) end)))))))

-- What `load_store` passes on when the file has to be written again.
abbrev pub rewrite_options : Option String → Option EncryptionProfile → WriteOptions
rewrite_options passphrase profile = record {
  passphrase = passphrase;
  encrypted = some (is_some profile);
  allow_weak = false;
  profile = profile;
}

module _ {W : Type 0} (p : Platform) (h : VaultHost W) where
  abbrev pub now_iso : Exec W String
  now_iso w = let (t, w') = h.now w in (ok (p.isoformat (whole_second t)), w')

  -- The payload that `write_store` writes.
  abbrev pub encrypt_with : Fields → WriteOptions → Option EncryptionProfile → Exec W Json
  encrypt_with next options existing = do
    pass ←
        lift (or_raise write_needs_passphrase (usable (options.passphrase) (h.default_passphrase)))
    h.encrypt next pass (options.allow_weak || is_some existing)
        (or_else (options.profile) (or_else existing latest_encryption_profile))

  unfoldable pub seal : Fields → WriteOptions → Option EncryptionProfile → Exec W Json
  seal next options existing =
      if or_else (options.encrypted) (is_some existing)
      then encrypt_with next options existing
      else pure (obj next)

  unfoldable pub write_store : Fields → WriteOptions → Exec W Fields
  write_store store options = do
    reads h.ensure_dir
    expected ← lift (store_revision store)
    reads h.write_guard
    reads h.store_lock
    (existing, current) ← reads (find_existing h (options.passphrase))
    lift (
        raise_if (not (nat_eq current expected)) (conflict_error "vault changed; reload and retry"))
    fields ← lift (fields_of store)
    now ← now_iso
    payload ← seal (next_store store fields now (current + 1)) options existing
    h.write_vault payload
    pure (put "revision" (int (pos (current + 1))) (put "updated_at" (str now) store))

  -- The clock is read twice.
  unfoldable pub blank_store : String → Exec W Fields
  blank_store schema_name = do
    schema ← lift (get_schema schema_name)
    created_at ← now_iso
    updated_at ← now_iso
    pure (blank_dict schema_name created_at updated_at schema)

  -- `read_store`
  unfoldable pub read_store : String → Option String → Exec W Fields
  read_store schema_name passphrase = do
    loaded ← reads (read_normalized_store h schema_name passphrase)
    pure (loaded.store)

  abbrev pub create_store : String → Exec W Fields
  create_store schema_name = do store ← blank_store schema_name; write_store store plain_options

  abbrev pub load_existing : String → Option String → Exec W Fields
  load_existing schema_name passphrase = do
    loaded ← reads (read_normalized_store h schema_name passphrase)
    if loaded.changed
        then write_store (loaded.store)
            (rewrite_options (usable passphrase (h.default_passphrase)) (loaded.profile))
        else pure (loaded.store)

  -- The message of the error has the path behind it in the source.
  unfoldable pub load_store : Bool → String → Option String → Exec W Fields
  load_store create schema_name passphrase = do
    reads h.ensure_dir
    exists ← reads h.vault_exists
    if exists
        then load_existing schema_name passphrase
        else if create
        then create_store schema_name
        else raise (os_error "Vault does not exist")
