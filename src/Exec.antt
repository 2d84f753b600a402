-- ===== src/Exec.antt =====
-- Methods that read and write a state and may raise.
use agent_personal_vault.Prelude.{◌≡◌, refl, subst}
use agent_personal_vault.Result.{Error, Result, ok, err}

abbrev pub Exec : Type 0 → Type 0 → Type 0
Exec W A = W → Result A × W

module _ {W : Type 0} where
  abbrev pub pure : {A : Type 0} → A → Exec W A
  pure a w = (ok a, w)

  abbrev pub raise : {A : Type 0} → Error → Exec W A
  raise e w = (err e, w)

  -- a pure step that may raise
  abbrev pub lift : {A : Type 0} → Result A → Exec W A
  lift r w = (r, w)

  -- a read of the state that may raise
  abbrev pub reads : {A : Type 0} → (W → Result A) → Exec W A
  reads f w = (f w, w)

  -- the rest of a block, after a step that ended with `r` at `w`
  unfoldable pub continue : {A B : Type 0} → Result A → W → (A → Exec W B) → Result B × W
  continue (ok a) w f = f a w
  continue (err e) w f = (err e, w)

  infixl 5 ◌>>=◌ ◌>>◌
  abbrev pub ◌>>=◌ : {A B : Type 0} → Exec W A → (A → Exec W B) → Exec W B
  ◌>>=◌ m f w = let (r, w') = m w in continue r w' f

  abbrev pub ◌>>◌ : {A B : Type 0} → Exec W A → Exec W B → Exec W B
  m >> k = m >>= λ _. k

  -- A block that returned went through its first step.
  pub >>=-eq-ok :
      {A B : Type 0} (m : Exec W A) (f : A → Exec W B) (w : W) {b : B} {w'' : W}
      → (m >>= f) w ≡ (ok b, w'')
      → (a : A) × (w' : W) × (m w ≡ (ok a, w')) × (f a w' ≡ (ok b, w''))
  unfolding continue
  >>=-eq-ok {A} {B} m f w {b} {w''} h = split (m w) refl h
    where
      split :
          (r : Result A × W)
          → m w ≡ r
          → continue r.0 r.1 f ≡ (ok b, w'')
          → (a : A) × (w' : W) × (m w ≡ (ok a, w')) × (f a w' ≡ (ok b, w''))
      split (ok a, w') e k = (a, w', e, k)
      split (err x, w') e k = absurd (cc)

-- What holds of the value and the state if a step returns.
abbrev pub Post : {W A : Type 0} → (A → W → Type 0) → Result A × W → Type 0
Post Q (ok a, w) = Q a w
Post Q (err e, w) = Unit

pub record Returns {W A : Type 0} (Q : A → W → Type 0) (r : Result A × W) : Type 0 where
  pub post : Post Q r

pub continue-Returns :
    {W A B : Type 0} {Q : B → W → Type 0} (r : Result A) (w : W) (f : A → Exec W B)
    → ((a : A) → r ≡ ok a → Returns Q (f a w))
    → Returns Q (continue r w f)
unfolding continue
continue-Returns (ok a) w f h = h a refl
continue-Returns (err e) w f h = record { post = tt }

pub Returns-at :
    {W A : Type 0} {Q : A → W → Type 0} {r : Result A × W} {a : A} {w : W}
    → Returns Q r
    → r ≡ (ok a, w)
    → Q a w
Returns-at {Q = Q} h e = subst (Post Q) e h.post

-- What a step gives, as the rule's last case.
pub Returns-last :
    {W A : Type 0} {Q : A → W → Type 0} (r : Result A × W)
    → ((a : A) → r.0 ≡ ok a → Q a r.1)
    → Returns Q r
Returns-last (ok a, w) h = record { post = h a refl }
Returns-last (err e, w) h = record { post = tt }

-- A block that returned went through a step that left the state alone.
pub continue-eq-ok :
    {W A B : Type 0} (r : Result A) (w : W) (f : A → Exec W B) {b : B} {w' : W}
    → continue r w f ≡ (ok b, w')
    → (a : A) × (r ≡ ok a) × (f a w ≡ (ok b, w'))
unfolding continue
continue-eq-ok (ok a) w f e = (a, refl, e)
continue-eq-ok (err x) w f e = absurd (cc)

-- What holds of the state after a step and after the rest, whether the block returns or raises.
pub continue-keeps :
    {W A B : Type 0} (P : W → Type 0) (r : Result A) (w : W) (f : A → Exec W B)
    → P w
    → ((a : A) → r ≡ ok a → P (f a w).1)
    → P (continue r w f).1
unfolding continue
continue-keeps P (ok a) w f here rest = rest a refl
continue-keeps P (err e) w f here rest = here

-- From what holds of each return.
pub Returns-each :
    {W A : Type 0} {Q : A → W → Type 0} (r : Result A × W)
    → ((a : A) (w : W) → r ≡ (ok a, w) → Q a w)
    → Returns Q r
Returns-each (ok a, w) h = record { post = h a w refl }
Returns-each (err e, w) h = record { post = tt }

-- The rule for a step that changes the state.
pub Returns-step :
    {W A C : Type 0} {Q : C → W → Type 0} (r : Result A × W) (f : A → Exec W C)
    → ((a : A) (w : W) → r ≡ (ok a, w) → Returns Q (f a w))
    → Returns Q (continue r.0 r.1 f)
unfolding continue
Returns-step (ok a, w) f h = h a w refl
Returns-step (err e, w) f h = record { post = tt }

pub Returns-value :
    {W A : Type 0} {Q : A → W → Type 0} (r : Result A × W) {a : A}
    → Returns Q r
    → r.0 ≡ ok a
    → Q a r.1
Returns-value r h e = Returns-at h (λ i. (e i, r.1))
