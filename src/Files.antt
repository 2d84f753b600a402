-- ===== src/Files.antt =====
-- What the storage modules use of agent_personal_vault/private_io.py, for one vault path: the files
-- beside the vault, and the operations on them.
pub mod Load
pub mod Save
pub mod Laws
use agent_personal_vault.Prelude.{
  ℕ, ◌≤◌, String, ◌≡◌, ◌⊎◌, Bool, true, false, Option, none, some, List, [], ◌∷◌, ◌||◌,
  if◌then◌else◌,
}
use agent_personal_vault.Result.{Error, Result, ok, err}
use agent_personal_vault.Exec.{Exec}
use agent_personal_vault.Python.Json.{Json, Fields}
use agent_personal_vault.Crypto.Cipher.{Cipher, CipherLaws}

-- `MEMBER_NAMES`
pub data Member : Type 0 where
  vault : Member
  consent : Member
  audit : Member

-- The path of a member, its backup and its staging file, and the journal of a migration.
pub data FileName : Type 0 where
  current : Member → FileName
  backup : Member → FileName
  next : Member → FileName
  journal : FileName

abbrev pub same_member : Member → Member → Bool
same_member vault vault = true
same_member consent consent = true
same_member audit audit = true
same_member _ _ = false

abbrev pub same_file : FileName → FileName → Bool
same_file (current m) (current n) = same_member m n
same_file (backup m) (backup n) = same_member m n
same_file (next m) (next n) = same_member m n
same_file journal journal = true
same_file _ _ = false

abbrev pub has_member : Member → List Member → Bool
has_member n [] = false
has_member n (m ∷ ms) = same_member n m || has_member n ms

pub record Files (W B : Type 0) : Type 0 where
  -- a read with the limit on the bytes
  pub private_file_exists : FileName → W → Result Bool
  pub read_private_bytes : FileName → ℕ → W → Result B
  pub write_private_bytes : FileName → B → Exec W (Unit {0})
  pub remove_private_file : FileName → Exec W Bool
  -- whether `private_file_stat` finds the file
  pub private_file_stat : FileName → W → Result Bool
  -- `exclusive_private_lock(migration_lock_path(vault_path))`, and the lock of a sidecar
  pub migration_lock : W → Result (Unit {0})
  pub sidecar_lock : Member → W → Result (Unit {0})
  -- `os.urandom`, and the passphrase of the environment
  pub urandom : ℕ → W → B × W
  pub default_passphrase : Option String
  pub cipher : Cipher B
  -- `(json.dumps(payload, ensure_ascii=False, indent=2) + "\n").encode("utf-8")`
  pub dumps_indented : Json → B
  -- `hashlib.sha256(b).hexdigest()`
  pub sha256 : B → String
  -- `b.splitlines()`, and `not b.strip()`
  pub splitlines : B → List B
  pub is_blank : B → Bool
  -- `==` of two dicts
  pub equal_dicts : Fields → Fields → Bool
  -- the order in which a set of names is gone through
  pub set_order : List Member → List Member

abbrev pub is_there : {B : Type 0} → Option B → Bool
is_there none = false
is_there (some _) = true

-- What is documented: a read gives what the file holds; a replacement is atomic, so that one that
-- raises, as it may do after the replacement when the directory is synced, has replaced the file or
-- has not; the random source leaves the files alone; the order of a
-- set has its names; JSON text reads back.
pub record FilesLaws {W B : Type 0} (f : Files W B) : Type 0 where
  pub content : FileName → W → Option B
  pub exists-content :
      (n : FileName) (w : W) (b : Bool)
      → f.private_file_exists n w ≡ ok b
      → is_there (content n w) ≡ b
  pub stat-content :
      (n : FileName) (w : W) (b : Bool)
      → f.private_file_stat n w ≡ ok b
      → is_there (content n w) ≡ b
  pub read-content :
      (n : FileName) (limit : ℕ) (w : W) (b : B)
      → f.read_private_bytes n limit w ≡ ok b
      → (content n w ≡ some b) × (f.cipher.len b ≤ limit)
  pub written :
      (n : FileName) (b : B) (w : W)
      → (f.write_private_bytes n b w).0 ≡ ok tt
      → (m : FileName)
      → content m (f.write_private_bytes n b w).1 ≡ (if same_file m n then some b else content m w)
  pub write_raised :
      (n : FileName) (b : B) (w : W)
      → ((m : FileName) → content m (f.write_private_bytes n b w).1 ≡ content m w)
        ⊎ ((m : FileName)
            → content m (f.write_private_bytes n b w).1
              ≡ (if same_file m n then some b else content m w))
  pub removed :
      (n : FileName) (w : W) (b : Bool)
      → (f.remove_private_file n w).0 ≡ ok b
      → (m : FileName)
      → content m (f.remove_private_file n w).1 ≡ (if same_file m n then none else content m w)
  pub remove_raised :
      (n : FileName) (w : W)
      → ((m : FileName) → content m (f.remove_private_file n w).1 ≡ content m w)
        ⊎ ((m : FileName)
            → content m (f.remove_private_file n w).1
              ≡ (if same_file m n then none else content m w))
  pub random-content : (n : ℕ) (w : W) (m : FileName) → content m (f.urandom n w).1 ≡ content m w
  pub random_size : (n : ℕ) (w : W) → f.cipher.len (f.urandom n w).0 ≡ n
  pub set_order-has_member :
      (n : Member) (ns : List Member) → has_member n (f.set_order ns) ≡ has_member n ns
  pub cipher_laws : CipherLaws f.cipher
  pub loads-dumps_indented : (j : Json) → f.cipher.loads (f.dumps_indented j) ≡ some j
