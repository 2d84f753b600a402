-- ===== src/Platform.antt =====
-- What the source takes from Python's library and from the Unicode tables, and what it relies on.
use agent_personal_vault.Prelude.{
  ℕ, ◌+◌, ◌-◌, ◌*◌, ◌%◌, Char, code, String, ◌≡◌, Bool, true, false, not, ◌&&◌, Option, some, ltb,
  ◌==◌, nat_eq, if◌then◌else◌,
}
use agent_personal_vault.Result.{Result, ok, err, overflow_error}
use agent_personal_vault.Python.Text.{size, all_chars, is_hex, is_ascii}
use agent_personal_vault.Python.Json.{Json, Fields, str, get_or_null, truthy}

-- A `datetime`: microseconds since `datetime.min` in UTC, and whether it has a timezone.
pub record Moment : Type 0 where
  pub instant : ℕ
  pub aware : Bool

abbrev pub second : ℕ
second = 1_000_000

-- `datetime.max`
abbrev pub last_instant : ℕ
last_instant = 315_537_897_599_999_999

-- `t + timedelta(seconds=n)`
unfoldable pub add_seconds : ℕ → ℕ → Result ℕ
add_seconds t n =
    let sum = t + n * second in if ltb last_instant sum then err overflow_error else ok sum

-- `t - timedelta(days=n)`
unfoldable pub sub_days : ℕ → ℕ → Result ℕ
sub_days t n =
    let gone = n * (86_400 * second) in if ltb t gone then err overflow_error else ok (t - gone)

-- `t.replace(microsecond=0)`
abbrev pub whole_second : ℕ → ℕ
whole_second t = t - t % second

pub record Platform : Type 0 where
  -- `unicodedata.category(c) == "Cf"`
  pub is_format_control : Char → Bool
  -- `unicodedata.normalize("NFKC", s)`
  pub nfkc : String → String
  -- `hashlib.sha256(s.encode("utf-8")).hexdigest()`
  pub sha256 : String → String
  -- `datetime.isoformat` of a moment in UTC
  pub isoformat : ℕ → String
  -- `datetime.fromisoformat`; `none` is `ValueError`
  pub fromisoformat : String → Option Moment
  -- `str(v)` of a value that is not a text
  pub text_of : Json → String
  -- whether the text of a float is that of a zero
  pub zero_float : String → Bool
  -- `json.dumps(d, ensure_ascii=False, sort_keys=True)`
  pub dumps_line : Fields → String
  -- the heuristics of `_clean_text` in audit.py, which are not modelled
  pub clean_text : String → String

-- `str(v)`
abbrev pub to_text : Platform → Json → String
to_text p (str s) = s
to_text p v = p.text_of v

-- `str(r.get(key) or "")`
abbrev pub text_field : Platform → String → Fields → String
text_field p key r = let v = get_or_null key r in if truthy p.zero_float v then to_text p v else ""

-- Neither a line feed nor a carriage return.
abbrev pub is_inline : Char → Bool
is_inline c = not (nat_eq (code c) 10) && not (nat_eq (code c) 13)

pub record PlatformLaws (p : Platform) : Type 0 where
  -- no ASCII character is a format control, and NFKC leaves ASCII text alone
  pub ascii_visible : (c : Char) → is_ascii c ≡ true → p.is_format_control c ≡ false
  pub nfkc_ascii : (s : String) → all_chars is_ascii s ≡ true → p.nfkc s ≡ s
  pub sha256_hex : (s : String) → all_chars is_hex (p.sha256 s) ≡ true
  pub sha256_size : (s : String) → size (p.sha256 s) ≡ 64
  -- a moment of whole seconds comes back from its text, which is not empty
  pub iso_round_trip :
      (t : ℕ)
      → t % second ≡ 0
      → p.fromisoformat (p.isoformat t) ≡ some (record { instant = t; aware = true })
  pub isoformat_ne : (t : ℕ) → (p.isoformat t == "") ≡ false
  -- JSON text escapes the control characters
  pub dumps_line-one_line : (d : Fields) → all_chars is_inline (p.dumps_line d) ≡ true
