-- ===== src/Audit/Display.antt =====
-- What the redaction of a purpose in audit.py shows.
use agent_personal_vault.Prelude.{
  String, ◌≡◌, refl, inl, inr, Bool-cases, Bool, true, false, ◌||◌, Option, none, some, ◌==◌,
  if◌then◌else◌, arith,
}
use agent_personal_vault.Python.Words.{collapse}
use agent_personal_vault.Python.Json.{Json, null, str}
use agent_personal_vault.Platform.{Platform}
use agent_personal_vault.Audit.{is_purpose_code, redact_text, redact_value}

-- One of the finitely many texts that stand for a purpose.
abbrev pub is_display_code : String → Bool
is_display_code s = s == "" || (s == "[redacted]" || is_purpose_code s)

||-true : (a b : Bool) → b ≡ true → (a || b) ≡ true
||-true a b h = ground arith

pub is_purpose_code-is_display_code :
    (s : String) → is_purpose_code s ≡ true → is_display_code s ≡ true
is_purpose_code-is_display_code s h = ||-true (s == "") _ (||-true (s == "[redacted]") _ h)

displayed :
    (s : String)
    → is_display_code (if s == "" then "" else if is_purpose_code s then s else "[redacted]") ≡ true
displayed s = elim (Bool-cases (s == "")) [
  | inl empty ↦ rw empty refl
  | inr _ ↦ elim (Bool-cases (is_purpose_code s)) [
    | inl listed ↦ chosen (s == "") (is_purpose_code s) (is_purpose_code-is_display_code s listed)
    | inr other ↦ rw other (redacted (s == ""))
  ]
]
  where
    redacted : (empty : Bool) → is_display_code (if empty then "" else "[redacted]") ≡ true
    redacted true = refl
    redacted false = refl

    chosen :
        (empty listed : Bool)
        → is_display_code s ≡ true
        → is_display_code (if empty then "" else if listed then s else "[redacted]") ≡ true
    chosen true listed h = refl
    chosen false true h = h
    chosen false false h = refl

redact_text-is_display_code : (p : Platform) (s : String) → is_display_code (redact_text p s) ≡ true
unfolding redact_text
redact_text-is_display_code p s = displayed (collapse (p.nfkc s))

-- A value that shows no purpose in clear.
abbrev pub IsDisplayed : Option Json → Type 0
IsDisplayed none = Unit
IsDisplayed (some (str s)) = is_display_code s ≡ true
IsDisplayed (some _) = ⊥

pub redact_value-IsDisplayed :
    (p : Platform) (v : Json) → IsDisplayed (some (str (redact_value p v)))
redact_value-IsDisplayed p null = refl
redact_value-IsDisplayed p v = redact_text-is_display_code p _
