-- ===== src/Tests/Groups.antt =====
-- A text of four characters for each group of three, which is the form of base64: it stands for
-- base64 in the tests.
use Prim.Native.String.{[], ◌∷◌}
use agent_personal_vault.Prelude.{
  ◌+◌, ◌*◌, ◌/◌, Char, code, String, ◌≡◌, refl, arith, Option, none, some, nat_eq, if◌then◌else◌,
}
use agent_personal_vault.Python.Text.{size}

abbrev pub encode : String → String
encode [] = []
encode (a ∷ []) = "1" ∷ a ∷ "=" ∷ "=" ∷ []
encode (a ∷ b ∷ []) = "2" ∷ a ∷ b ∷ "=" ∷ []
encode (a ∷ b ∷ c ∷ s) = "3" ∷ a ∷ b ∷ c ∷ encode s

abbrev before : Char → Char → Char → Option String → Option String
before a b c none = none
before a b c (some s) = some (a ∷ b ∷ c ∷ s)

abbrev pub decode : String → Option String
decode [] = some []
decode (t ∷ a ∷ b ∷ c ∷ s) =
    let rest = decode s in
    if nat_eq (code t) b'1'
    then some (a ∷ [])
    else if nat_eq (code t) b'2'
    then some (a ∷ b ∷ [])
    else before a b c rest
decode _ = none

pub decode-encode : (s : String) → decode (encode s) ≡ some s
decode-encode [] = refl
decode-encode (a ∷ []) = refl
decode-encode (a ∷ b ∷ []) = refl
decode-encode (a ∷ b ∷ c ∷ s) = rw (decode-encode s) refl

pub size-encode : (s : String) → size (encode s) ≡ ((size s + 2) / 3) * 4
size-encode [] = refl
size-encode (a ∷ []) = refl
size-encode (a ∷ b ∷ []) = refl
size-encode (a ∷ b ∷ c ∷ s) = omega (arith, size-encode s)
