-- ===== src/Tests/Disk.antt =====
-- Files in memory that meet the laws which the theorems assume, and the theorems of the sidecars and of
-- the migration guard at concrete inputs. A digest is 64 characters, the last of which tells whether the
-- size is odd.
use agent_personal_vault.Prelude.{
  ℕ, ◌%◌, ◌≤◌, String, ◌≡◌, refl, inr, false, Option, none, some, ◌==◌, ltb, nat_eq, arith,
  if◌then◌else◌,
}
use agent_personal_vault.Result.{Result, ok, ok_inj, err, os_error, resource_limit_error}
use agent_personal_vault.Python.Text.{size, ◌^^◌}
use agent_personal_vault.Python.Json.{obj}
use agent_personal_vault.Audit.Log.{split_lines, strip_bytes}
use agent_personal_vault.Files.{FileName, same_file, is_there, Files, FilesLaws}
use agent_personal_vault.Tests.Notation.{dumps_text, loads-dumps_text}
use agent_personal_vault.Tests.Seals.{cipher, cipher-CipherLaws, zeros, size-zeros}

pub record Disk : Type 0 where
  pub files : FileName → Option String

abbrev pub set_file : FileName → Option String → Disk → Disk
set_file n content w = record { files = λ m. if same_file m n then content else w.files m }

abbrev pub read_option : ℕ → Option String → Result String
read_option limit none = err (os_error "missing")
read_option limit (some b) =
    if ltb limit (size b)
    then err (resource_limit_error "private state exceeds the supported size limit")
    else ok b

abbrev pub digest : String → String
digest s = zeros 63 ^^ (if nat_eq (size s % 2) 0 then "0" else "1")

abbrev pub disk_files : Files Disk String
disk_files = record {
  private_file_exists = λ n w. ok (is_there (w.files n));
  read_private_bytes = λ n limit w. read_option limit (w.files n);
  write_private_bytes = λ n b w. (ok tt, set_file n (some b) w);
  remove_private_file = λ n w. (ok (is_there (w.files n)), set_file n none w);
  private_file_stat = λ n w. ok (is_there (w.files n));
  migration_lock = λ w. ok tt;
  sidecar_lock = λ m w. ok tt;
  urandom = λ n w. (zeros n, w);
  default_passphrase = none;
  cipher = cipher;
  dumps_indented = dumps_text;
  sha256 = digest;
  splitlines = split_lines;
  is_blank = λ line. strip_bytes line == "";
  equal_dicts = λ d e. dumps_text (obj d) == dumps_text (obj e);
  set_order = λ ms. ms;
}

pub read_option-some :
    (limit : ℕ) (o : Option String) (b : String)
    → o ≡ some b
    → size b ≤ limit
    → read_option limit o ≡ ok b
read_option-some limit o b h fits = rw (h, not_over (size b) limit fits) refl
  where
    not_over : (a b : ℕ) → a ≤ b → ltb b a ≡ false
    not_over a b h = ground arith

pub read_option-content :
    (limit : ℕ) (o : Option String) (b : String)
    → read_option limit o ≡ ok b
    → (o ≡ some b) × (size b ≤ limit)
read_option-content limit none b h = absurd (cc)
read_option-content limit (some c) b h = ground arith

abbrev pub disk_files-FilesLaws : FilesLaws disk_files
disk_files-FilesLaws = record {
  content = λ n w. w.files n;
  exists-content = λ n w b e. ok_inj e;
  stat-content = λ n w b e. ok_inj e;
  read-content = λ n limit w b e. read_option-content limit (w.files n) b e;
  written = λ n b w _ m. refl;
  write_raised = λ n b w. inr (λ m. refl);
  removed = λ n w b _ m. refl;
  remove_raised = λ n w. inr (λ m. refl);
  random-content = λ n w m. refl;
  random_size = λ n w. size-zeros n;
  set_order-has_member = λ n ms. refl;
  cipher_laws = cipher-CipherLaws;
  loads-dumps_indented = loads-dumps_text;
}
