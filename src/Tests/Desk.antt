-- ===== src/Tests/Desk.antt =====
-- A platform and a host in memory that meet the laws which the theorems assume.
use agent_personal_vault.Prelude.{
  ℕ, zero, suc, ◌*◌, ◌/◌, ◌%◌, code, String, ◌≡◌, refl, ap, Bool, true, false, Option, none, some,
  nat_eq, ltb, arith, ◌==◌, eq_iff, Bool-cases, inl, inr,
}
use agent_personal_vault.Result.{ok, err, os_error}
use agent_personal_vault.Python.Text.{◌^^◌, size}
use agent_personal_vault.Python.Json.{Json}
use agent_personal_vault.Platform.{Platform, PlatformLaws, Moment, second}
use agent_personal_vault.Host.{Host, HostLaws}

-- `n` strokes
abbrev pub strokes : ℕ → String
strokes zero = ""
strokes (suc n) = "I" ^^ strokes n

-- One stroke more than the seconds.
abbrev pub tally : ℕ → String
tally t = strokes (suc (t / second))

abbrev pub read_tally : String → Option Moment
read_tally String.[] = none
read_tally (String.◌∷◌ c s) = some (record { instant = size s * second; aware = true })

abbrev pub digest_of : String → String
digest_of s = "aaaaaaaaaaaaaaaaaaaaaaaaaaaaaaaaaaaaaaaaaaaaaaaaaaaaaaaaaaaaaaaa"

abbrev pub platform : Platform
platform = record {
  is_format_control = λ c. nat_eq (code c) 0x200B;
  nfkc = λ s. s;
  sha256 = digest_of;
  isoformat = tally;
  fromisoformat = read_tally;
  text_of = λ j. "";
  zero_float = λ t. t == "0.0";
  dumps_line = λ d. "{}";
  clean_text = λ s. s;
}

size-strokes : (n : ℕ) → size (strokes n) ≡ n
size-strokes zero = refl
size-strokes (suc n) = ap suc (size-strokes n)

platform_iso :
    (t : ℕ) → t % second ≡ 0 → read_tally (tally t) ≡ some (record { instant = t; aware = true })
platform_iso t whole =
    ap (λ n. some (record { instant = n; aware = true })) (rw size-strokes (omega arith))

stroke-ne : (s : String) → (("I" ^^ s) == "") ≡ false
stroke-ne s = elim (Bool-cases (("I" ^^ s) == "")) [
  | inl same ↦ absurd (unlike ((eq_iff ("I" ^^ s) "").0 same))
  | inr other ↦ other
]
  where
    unlike : ¬ (("I" ^^ s) ≡ "")
    unlike e = cc

pub platform-PlatformLaws : PlatformLaws platform
platform-PlatformLaws = record {
  ascii_visible = λ c h. visible (code c) h;
  nfkc_ascii = λ s h. refl;
  sha256_hex = λ s. refl;
  sha256_size = λ s. refl;
  iso_round_trip = platform_iso;
  isoformat_ne = λ t. stroke-ne (strokes (t / second));
  dumps_line-one_line = λ d. refl;
}
  where
    visible : (n : ℕ) → ltb n 128 ≡ true → nat_eq n 0x200B ≡ false
    visible n h = ground arith

-- The files, and the readings of the clock and of the random source.
pub record Desk : Type 0 where
  pub consent_file : Option Json
  pub audit_file : Option String
  pub clock : ℕ
  pub migrating : Bool

abbrev pub host : Host Desk
host = record {
  write_guard = λ d. elim d.migrating [ true ↦ err (os_error "migration") | false ↦ ok tt ];
  consent_exists = λ d. elim d.consent_file [ none ↦ ok false | some _ ↦ ok true ];
  read_consent = λ d. elim d.consent_file [ none ↦ err (os_error "missing") | some j ↦ ok j ];
  write_consent = λ j d. (ok tt, record d { consent_file = some j });
  audit_exists = λ d. elim d.audit_file [ none ↦ ok false | some _ ↦ ok true ];
  read_audit = λ d. elim d.audit_file [ none ↦ err (os_error "missing") | some s ↦ ok s ];
  write_audit = λ s d. (ok tt, record d { audit_file = some s });
  now = λ d. (d.clock, d);
  token = λ d. ("AAAAAAAAAAAAAAAAAAAAAAAA", d);
}

pub host-HostLaws : HostLaws host
host-HostLaws = record {
  consent_written = λ j w _. (refl, refl);
  audit_written = λ s w _. (refl, refl);
  write_consent-audit = λ j w. record { exists = refl; content = refl };
  write_audit-consent = λ s w. record { exists = refl; content = refl };
  now-consent = λ w. record { exists = refl; content = refl };
  now-audit = λ w. record { exists = refl; content = refl };
  token-consent = λ w. record { exists = refl; content = refl };
  token-audit = λ w. record { exists = refl; content = refl };
  token_form = λ w. refl;
}
