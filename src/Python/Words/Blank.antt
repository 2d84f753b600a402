-- ===== src/Python/Words/Blank.antt =====
-- Which texts are blank, and that `str.strip` keeps them so.
use Prim.Native.String.{[], ◌∷◌}
use agent_personal_vault.Prelude.{
  Char, String, ◌≡◌, refl, ◌∙◌, inl, inr, Bool, Bool-cases, true, false, ◌&&◌, ◌==◌, eq_iff, arith,
  ap, if◌then◌else◌,
}
use agent_personal_vault.Python.Text.{◌^^◌, is_space, all_chars}
use agent_personal_vault.Python.Words.{lstrip, rstrip, keep_last, strip}

-- Every character is a space.
abbrev pub is_blank : String → Bool
is_blank s = all_chars is_space s

-- a text, by whether it is empty
abbrev is_empty : String → Bool
is_empty [] = true
is_empty (c ∷ s) = false

is_empty-eq : (s : String) → (s == "") ≡ is_empty s
is_empty-eq [] = refl
is_empty-eq (c ∷ s) = elim (Bool-cases ((c ∷ s) == "")) [
  | inl e ↦ absurd (unlike ((eq_iff (c ∷ s) "").0 e))
  | inr e ↦ e
]
  where
    unlike : ¬ ((c ∷ s) ≡ [])
    unlike e = cc

is_blank-lstrip : (s : String) → is_blank (lstrip s) ≡ is_blank s
unfolding lstrip
is_blank-lstrip [] = refl
is_blank-lstrip (c ∷ s) = by_space (is_space c) refl (is_blank-lstrip s)
  where
    by_space :
        (b : Bool)
        → is_space c ≡ b
        → is_blank (lstrip s) ≡ is_blank s
        → is_blank (if b then lstrip s else c ∷ s) ≡ (b && is_blank s)
    by_space true e rest = rest
    by_space false e rest = rw e refl

is_empty-keep_last : (c : Char) (t : String) → is_empty (keep_last c t) ≡ (is_space c && is_empty t)
is_empty-keep_last c [] = by_space (is_space c)
  where
    by_space : (b : Bool) → is_empty (if b then [] else c ∷ []) ≡ (b && true)
    by_space true = refl
    by_space false = refl
is_empty-keep_last c (d ∷ t) = by_space (is_space c)
  where
    by_space : (b : Bool) → false ≡ (b && false)
    by_space true = refl
    by_space false = refl

is_empty-rstrip : (s : String) → is_empty (rstrip s) ≡ is_blank s
unfolding rstrip
is_empty-rstrip [] = refl
is_empty-rstrip (c ∷ s) =
    is_empty-keep_last c (rstrip s) ∙ ap (λ b. is_space c && b) (is_empty-rstrip s)

is_blank-keep_last : (c : Char) (t : String) → is_blank (keep_last c t) ≡ (is_space c && is_blank t)
is_blank-keep_last c [] = by_space (is_space c) refl
  where
    by_space : (b : Bool) → is_space c ≡ b → is_blank (if b then [] else c ∷ []) ≡ (b && true)
    by_space true e = refl
    by_space false e = rw e refl
is_blank-keep_last c (d ∷ t) = refl

is_blank-rstrip : (s : String) → is_blank (rstrip s) ≡ is_blank s
unfolding rstrip
is_blank-rstrip [] = refl
is_blank-rstrip (c ∷ s) =
    is_blank-keep_last c (rstrip s) ∙ ap (λ b. is_space c && b) (is_blank-rstrip s)

-- A text strips to the empty text exactly if it is blank.
pub strip-is_blank : (s : String) → (strip s == "") ≡ is_blank s
unfolding strip
strip-is_blank s =
    is_empty-eq (rstrip (lstrip s)) ∙ (is_empty-rstrip (lstrip s) ∙ is_blank-lstrip s)

pub is_blank-strip : (s : String) → is_blank (strip s) ≡ is_blank s
unfolding strip
is_blank-strip s = is_blank-rstrip (lstrip s) ∙ is_blank-lstrip s

pub is_blank-append : (s t : String) → is_blank (s ^^ t) ≡ (is_blank s && is_blank t)
is_blank-append [] t = refl
is_blank-append (c ∷ s) t = ground (arith, is_blank-append s t)
