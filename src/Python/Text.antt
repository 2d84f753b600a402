-- ===== src/Python/Text.antt =====
-- Python's `str`, as the native text of Unicode scalar values: the operations that the source calls.
-- A lone surrogate, which Python's `str` can hold, is no such text.
use Prim.Native.String.{[], ◌∷◌}
use agent_personal_vault.Prelude.{
  ℕ, suc, ◌+◌, Char, code, String, Bool, true, false, ◌&&◌, ◌||◌, Option, none, some, ltb, leb,
  nat_eq, if◌then◌else◌,
}

-- `len(s)`
abbrev pub size : String → ℕ
size [] = 0
size (c ∷ s) = suc (size s)

-- `s + t`
infixr 66 ◌^^◌
abbrev pub ◌^^◌ : String → String → String
[] ^^ t = t
(c ∷ s) ^^ t = c ∷ (s ^^ t)

abbrev pub all_chars : (Char → Bool) → String → Bool
all_chars p [] = true
all_chars p (c ∷ s) = p c && all_chars p s

-- `any(p(char) for char in s)`
abbrev pub any_char : (Char → Bool) → String → Bool
any_char p [] = false
any_char p (c ∷ s) = p c || any_char p s

-- `s[:n]`
abbrev pub take : ℕ → String → String
take n [] = []
take ℕ.zero (c ∷ s) = []
take (suc n) (c ∷ s) = c ∷ take n s

-- The text behind a prefix.
abbrev pub after_prefix : String → String → Option String
after_prefix [] s = some s
after_prefix (p ∷ ps) [] = none
after_prefix (p ∷ ps) (c ∷ s) = if nat_eq (code p) (code c) then after_prefix ps s else none

-- `s.startswith(p)`
abbrev pub has_prefix : String → String → Bool
has_prefix p s = elim (after_prefix p s) [ none ↦ false | some _ ↦ true ]

-- `len(s.encode("utf-8"))`
abbrev pub utf8_width : ℕ → ℕ
utf8_width c = if ltb c 0x80 then 1 else if ltb c 0x800 then 2 else if ltb c 0x1_0000 then 3 else 4

unfoldable pub utf8_size : String → ℕ
utf8_size [] = 0
utf8_size (c ∷ s) = utf8_width (code c) + utf8_size s

abbrev pub within : ℕ → ℕ → ℕ → Bool
within lo hi c = leb lo c && leb c hi

-- `[0-9a-f]`
abbrev pub is_hex : Char → Bool
is_hex c = within b'0' b'9' (code c) || within b'a' b'f' (code c)

-- `[A-Za-z0-9_-]`
abbrev pub is_urlsafe : Char → Bool
is_urlsafe c =
    within b'A' b'Z' (code c)
    || within b'a' b'z' (code c)
    || within b'0' b'9' (code c)
    || nat_eq (code c) b'_'
    || nat_eq (code c) b'-'

abbrev pub is_ascii : Char → Bool
is_ascii c = ltb (code c) 128

-- `str.isspace`, by which `str.split` and `str.strip` go
abbrev pub is_space : Char → Bool
is_space c =
    let n = code c in
    within 9 13 n
    || within 28 32 n
    || nat_eq n 133
    || nat_eq n 160
    || nat_eq n 5760
    || within 8192 8202 n
    || within 8232 8233 n
    || nat_eq n 8239
    || nat_eq n 8287
    || nat_eq n 12288
