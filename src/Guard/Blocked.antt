-- ===== src/Guard/Blocked.antt =====
-- What agent_personal_vault/migration_guard.py lets through.
use agent_personal_vault.Prelude.{◌≡◌, ◌∙◌, refl, sym, Bool, true, false, not, ◌&&◌, arith}
use agent_personal_vault.Result.{Error, Result, ok, err, raise_if, raise_if-eq_ok}
use agent_personal_vault.Exec.{
  Exec, continue, continue-eq-ok, continue-keeps, lift, Returns, Returns-at, Returns-each,
}
use agent_personal_vault.Files.{journal, is_there, Files, FilesLaws}
use agent_personal_vault.Guard.{enter, migration_is_incomplete, kdf_write_guard}

module _ {W B : Type 0} (f : Files W B) where
  -- Both ways to enter leave the state alone.
  enter-eq-ok :
      {A : Type 0} (active : Bool) (rest : Unit {0} → Exec W A) (w : W) {a : A} {w' : W}
      → continue (enter f active w).0 (enter f active w).1 rest ≡ (ok a, w')
      → rest tt w ≡ (ok a, w')
  unfolding continue
  enter-eq-ok true rest w e = e
  enter-eq-ok false rest w e = let (_, _, e1) = continue-eq-ok (f.migration_lock w) w rest e in e1

  checked :
      {A : Type 0} (allow : Bool) (rest : Exec W A) (found : Result Bool) (w : W) {a : A} {w' : W}
      → continue
          (continue found w (λ b. lift (raise_if (b && not allow) migration_is_incomplete))).0
          (continue found w (λ b. lift (raise_if (b && not allow) migration_is_incomplete))).1
          (λ _. rest)
        ≡ (ok a, w')
      → (b : Bool) × (found ≡ ok b) × ((b && not allow) ≡ false) × (rest w ≡ (ok a, w'))
  unfolding continue
  checked allow rest (err x) w e = absurd (cc)
  checked allow rest (ok b) w e =
      let (_, passed, e1) =
        continue-eq-ok (raise_if (b && not allow) migration_is_incomplete) w (λ _. rest) e in
      (b, refl, raise_if-eq_ok _ _ passed, e1)

  -- The block that a guard lets through starts at the same state, and finds no journal.
  pub kdf_write_guard-eq-ok :
      {A : Type 0} (active : Bool) (body : Bool → Exec W A) (w : W) {a : A} {w' : W}
      → kdf_write_guard f active false body w ≡ (ok a, w')
      → (f.private_file_exists journal w ≡ ok false) × (body true w ≡ (ok a, w'))
  unfolding kdf_write_guard
  kdf_write_guard-eq-ok active body w e =
      let e1 = enter-eq-ok active _ w e in
      let (b, found, passed, e2) =
        checked false (body true) (f.private_file_exists journal w) w e1 in
      (rw (sym (is_false b passed)) found, e2)
    where
      is_false : (b : Bool) → (b && true) ≡ false → b ≡ false
      is_false b h = ground arith

  pub kdf_write_guard-allowed :
      {A : Type 0} (active : Bool) (body : Bool → Exec W A) (w : W) {a : A} {w' : W}
      → kdf_write_guard f active true body w ≡ (ok a, w')
      → body true w ≡ (ok a, w')
  unfolding kdf_write_guard
  kdf_write_guard-allowed active body w e =
      let e1 = enter-eq-ok active _ w e in
      let (b, found, passed, e2) =
        checked true (body true) (f.private_file_exists journal w) w e1 in
      e2

  -- Both ways to enter return at the same state, or raise there.
  entered :
      {A : Type 0} (active : Bool) (rest : Unit {0} → Exec W A) (w : W)
      → ((e : Error) × (rest tt w ≡ (err e, w)))
      → (e : Error) × (continue (enter f active w).0 (enter f active w).1 rest ≡ (err e, w))
  unfolding continue
  entered true rest w h = h
  entered false rest w h = split (f.migration_lock w)
    where
      split : (r : Result (Unit {0})) → (e : Error) × (continue r w rest ≡ (err e, w))
      split (ok tt) = h
      split (err e) = (e, refl)

  stopped :
      {A : Type 0} (rest : Exec W A) (found : Result Bool) (w : W)
      → ((b : Bool) → found ≡ ok b → true ≡ b)
      → (e : Error) × (continue
            (continue found w (λ b. lift (raise_if (b && true) migration_is_incomplete))).0
            (continue found w (λ b. lift (raise_if (b && true) migration_is_incomplete))).1
            (λ _. rest)
          ≡ (err e, w))
  unfolding continue
  stopped rest (err x) w there = (x, refl)
  stopped rest (ok true) w there = (migration_is_incomplete, refl)
  stopped rest (ok false) w there = absurd (impossible (there false refl))
    where
      impossible : true ≡ false → ⊥
      impossible h = cc

  -- While the journal of a migration is there, whatever block a guard protects that does not allow
  -- for an incomplete migration does not run: the guard raises, and the state is as it was.
  pub kdf_write_guard_blocks :
      {A : Type 0} (laws : FilesLaws f) (active : Bool) (body : Bool → Exec W A) (w : W)
      → is_there (laws.content journal w) ≡ true
      → (e : Error) × (kdf_write_guard f active false body w ≡ (err e, w))
  unfolding kdf_write_guard
  kdf_write_guard_blocks laws active body w there = entered active _ w (
      stopped (body true) (f.private_file_exists journal w) w
        λ b found. sym there ∙ laws.exists-content journal w b found)

  pub kdf_write_guard-Returns :
      {A : Type 0} {Q : A → W → Type 0} (active : Bool) (body : Bool → Exec W A) (w : W)
      → (f.private_file_exists journal w ≡ ok false → Returns Q (body true w))
      → Returns Q (kdf_write_guard f active false body w)
  kdf_write_guard-Returns active body w h = Returns-each _ λ a w' e.
      let (complete, e1) = kdf_write_guard-eq-ok active body w e in Returns-at (h complete) e1

  pub kdf_write_guard-Returns_allowed :
      {A : Type 0} {Q : A → W → Type 0} (active : Bool) (body : Bool → Exec W A) (w : W)
      → Returns Q (body true w)
      → Returns Q (kdf_write_guard f active true body w)
  kdf_write_guard-Returns_allowed active body w h =
      Returns-each _ λ a w' e. Returns-at h (kdf_write_guard-allowed active body w e)

  -- A block that raises and leaves the state alone does so under a guard that allows for an
  -- incomplete migration.
  pub kdf_write_guard-raises :
      {A : Type 0} (active : Bool) (body : Bool → Exec W A) (w : W)
      → ((e : Error) × (body true w ≡ (err e, w)))
      → (e : Error) × (kdf_write_guard f active true body w ≡ (err e, w))
  unfolding kdf_write_guard continue
  kdf_write_guard-raises active body w (e, h) =
      entered active _ w (checked_through (f.private_file_exists journal w))
    where
      checked_through :
          (found : Result Bool)
          → (x : Error) × (continue
                (continue found w (λ b. lift (raise_if (b && false) migration_is_incomplete))).0
                (continue found w (λ b. lift (raise_if (b && false) migration_is_incomplete))).1
                (λ _. body true)
              ≡ (err x, w))
      checked_through (err x) = (x, refl)
      checked_through (ok true) = (e, h)
      checked_through (ok false) = (e, h)

  checked-keeps :
      {A : Type 0} (P : W → Type 0) (allow : Bool) (rest : Exec W A) (found : Result Bool) (w : W)
      → P w
      → P (rest w).1
      → P
          (continue
            (continue found w (λ b. lift (raise_if (b && not allow) migration_is_incomplete))).0
            (continue found w (λ b. lift (raise_if (b && not allow) migration_is_incomplete))).1
            (λ _. rest)).1
  unfolding continue
  checked-keeps P allow rest (err x) w before after = before
  checked-keeps P allow rest (ok b) w before after =
      continue-keeps P (raise_if (b && not allow) migration_is_incomplete) w (λ _. rest) before
        (λ _ _. after)

  -- What holds before the block and after it holds after the guard.
  pub kdf_write_guard-keeps :
      {A : Type 0} (P : W → Type 0) (active allow : Bool) (body : Bool → Exec W A) (w : W)
      → P w
      → P (body true w).1
      → P (kdf_write_guard f active allow body w).1
  unfolding kdf_write_guard continue
  kdf_write_guard-keeps P true allow body w before after =
      checked-keeps P allow (body true) (f.private_file_exists journal w) w before after
  kdf_write_guard-keeps P false allow body w before after =
      continue-keeps P (f.migration_lock w) w _ before
        (λ _ _. checked-keeps P allow (body true) (f.private_file_exists journal w) w before after)
