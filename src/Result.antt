-- ===== src/Result.antt =====
-- Exceptions as values, and methods that act on the stored state of one vault.
--
-- An exception is its class and its message, spelled as in the source. What was written before a
-- raise stays written, so the state comes back beside the error too.
use agent_personal_vault.Prelude.{String, ◌≡◌, refl, subst, ◌⊎◌, inl, inr, Bool, true, false}

-- `ConsentError`, `ResourceLimitError`, `VaultConflictError` and `DecryptionError` are subclasses
-- of `ValueError`, which stands fifth here, as are `UnicodeDecodeError` and `JSONDecodeError`, which
-- are one here. `KDFMigrationIncompleteError` is not.
pub data Error : Type 0 where
  consent_error : String → Error
  resource_limit_error : String → Error
  conflict_error : String → Error
  decryption_error : String → Error
  value_error : String → Error
  decode_error : Error
  recursion_error : Error
  overflow_error : Error
  os_error : String → Error
  key_error : String → Error
  unavailable_error : String → Error
  incomplete_error : String → Error
  attribute_error : Error
  type_error : Error

-- `except ValueError`
abbrev pub is_value_error : Error → Bool
is_value_error recursion_error = false
is_value_error overflow_error = false
is_value_error (os_error _) = false
is_value_error (key_error _) = false
is_value_error (unavailable_error _) = false
is_value_error (incomplete_error _) = false
is_value_error attribute_error = false
is_value_error type_error = false
is_value_error _ = true

-- `except (UnicodeDecodeError, json.JSONDecodeError): raise error`
abbrev pub instead_of_decode_error : Error → Error → Error
instead_of_decode_error error decode_error = error
instead_of_decode_error error e = e

-- `except RecursionError: raise error`
abbrev pub instead_of_recursion_error : Error → Error → Error
instead_of_recursion_error error recursion_error = error
instead_of_recursion_error error e = e

pub data Result (A : Type 0) : Type 0 where
  err : Error → Result A
  ok : A → Result A

infixl 5 ◌>>=◌ ◌>>◌
unfoldable pub ◌>>=◌ : {A B : Type 0} → Result A → (A → Result B) → Result B
err raised >>= rest = err raised
ok value >>= rest = rest value

abbrev pub ◌>>◌ : {A B : Type 0} → Result A → Result B → Result B
step >> rest = step >>= λ _. rest

-- `if not condition: raise error`
abbrev pub require : Bool → Error → Result (Unit {0})
require true e = ok tt
require false e = err e

-- `if condition: raise error`
abbrev pub raise_if : Bool → Error → Result (Unit {0})
raise_if true e = err e
raise_if false e = ok tt

-- `except (UnicodeDecodeError, json.JSONDecodeError): return …`
abbrev pub on_decode_error : {A : Type 0} → Result A → Error → Result A
on_decode_error r decode_error = r
on_decode_error r e = err e

-- What holds of the value, if there is one.
abbrev pub Post : {A : Type 0} → (A → Type 0) → Result A → Type 0
Post Q (ok a) = Q a
Post Q (err e) = Unit

pub record Gives {A : Type 0} (Q : A → Type 0) (r : Result A) : Type 0 where
  pub post : Post Q r

-- The rule for a step of a block; the equation says what the step gave.
pub >>=-Gives :
    {A B : Type 0} {Q : B → Type 0} (m : Result A) (f : A → Result B)
    → ((a : A) → m ≡ ok a → Gives Q (f a))
    → Gives Q (m >>= f)
unfolding ◌>>=◌
>>=-Gives (ok a) f h = h a refl
>>=-Gives (err e) f h = record { post = tt }

pub Gives-at : {A : Type 0} {Q : A → Type 0} {r : Result A} {a : A} → Gives Q r → r ≡ ok a → Q a
Gives-at {Q = Q} h e = subst (Post Q) e h.post

pub ok->>= : {A B : Type 0} (a : A) (f : A → Result B) → (ok a >>= f) ≡ f a
unfolding ◌>>=◌
ok->>= a f = refl

pub raise_if-eq_ok : (b : Bool) (e : Error) {u : Unit {0}} → raise_if b e ≡ ok u → b ≡ false
raise_if-eq_ok true e h = cc
raise_if-eq_ok false e h = refl

pub require-eq_ok : (b : Bool) (e : Error) {u : Unit {0}} → require b e ≡ ok u → b ≡ true
require-eq_ok true e h = refl
require-eq_ok false e h = cc

-- What a step gives, as the rule's last case.
pub Gives-last :
    {A : Type 0} {Q : A → Type 0} (r : Result A) → ((a : A) → r ≡ ok a → Q a) → Gives Q r
Gives-last (ok a) h = record { post = h a refl }
Gives-last (err e) h = record { post = tt }

-- A block that gave a value went through its first step.
pub >>=-eq_ok :
    {A B : Type 0} (first : Result A) (rest : A → Result B) {result : B}
    → (first >>= rest) ≡ ok result
    → (given : A) × (first ≡ ok given) × (rest given ≡ ok result)
unfolding ◌>>=◌
>>=-eq_ok (err raised) rest e = absurd (cc)
>>=-eq_ok (ok given) rest e = (given, refl, e)

pub ok_inj : {A : Type 0} {a b : A} → ok a ≡ ok b → a ≡ b
ok_inj e = cc

pub Result-cases :
    {A : Type 0} (r : Result A) → ((e : Error) × (r ≡ err e)) ⊎ ((a : A) × (r ≡ ok a))
Result-cases (err e) = inl (e, refl)
Result-cases (ok a) = inr (a, refl)
