-- ===== src/Migration/Loops.antt =====
-- Loops of agent_personal_vault/kdf_migration.py that only read.
use agent_personal_vault.Prelude.{◌≡◌, ◌∙◌, refl, sym, ap, Option, none, some}
use agent_personal_vault.Result.{Result, ok, err, ok_inj, ◌>>=◌, >>=-eq_ok}
use agent_personal_vault.Exec.{Exec, continue, reads}
use agent_personal_vault.Files.{Member, vault, consent, audit}
use agent_personal_vault.Migration.{Present}
use agent_personal_vault.Migration.Each.{each_entry, each}

-- `d.get(name)`
abbrev pub entry : {A : Type 0} → Member → Present A → Option A
entry vault d = some d.of_vault
entry consent d = d.of_consent
entry audit d = d.of_audit

module _ {W A C : Type 0} where
  abbrev pub collect_entry : (A → W → Result C) → Option A → W → Result (Option C)
  collect_entry g none w = ok none
  collect_entry g (some a) w = g a w >>= λ c. ok (some c)

  -- What such a loop gives.
  unfoldable pub collect : (Member → A → W → Result C) → Present A → W → Result (Present C)
  collect g d w = do
    for_vault ← g vault d.of_vault w
    for_consent ← collect_entry (g consent) d.of_consent w
    for_audit ← collect_entry (g audit) d.of_audit w
    ok (record { of_vault = for_vault; of_consent = for_consent; of_audit = for_audit })

continue-reads :
    {W D C : Type 0} (r : Result D) (w : W) (f : D → Exec W C) (k : D → Result C)
    → ((d : D) → f d w ≡ (k d, w))
    → continue r w f ≡ (r >>= k, w)
unfolding continue ◌>>=◌
continue-reads (ok d) w f k h = h d
continue-reads (err e) w f k h = refl

bind-reads :
    {W D C : Type 0} (m : Exec W D) (w : W) (r : Result D) (f : D → Exec W C) (k : D → Result C)
    → m w ≡ (r, w)
    → ((d : D) → f d w ≡ (k d, w))
    → continue (m w).0 (m w).1 f ≡ (r >>= k, w)
bind-reads m w r f k e h = rw (e) (continue-reads r w f k h)

module _ {W A C : Type 0} where
  each_entry-reads :
      (g : A → W → Result C) (o : Option A) (w : W)
      → each_entry (λ a. reads (g a)) o w ≡ (collect_entry g o w, w)
  each_entry-reads g none w = refl
  each_entry-reads g (some a) w =
      continue-reads (g a w) w (λ c v. (ok (some c), v)) (λ c. ok (some c)) (λ c. refl)

  -- It leaves the state alone.
  pub each-reads :
      (g : Member → A → W → Result C) (d : Present A) (w : W)
      → each (λ m a. reads (g m a)) d w ≡ (collect g d w, w)
  unfolding collect
  each-reads g d w = bind-reads (reads (g vault d.of_vault)) w _ _ _ refl λ for_vault.
      bind-reads (each_entry (λ a. reads (g consent a)) d.of_consent) w _ _ _
        (each_entry-reads (g consent) d.of_consent w)
        λ for_consent.
          bind-reads (each_entry (λ a. reads (g audit a)) d.of_audit) w _ _ _
            (each_entry-reads (g audit) d.of_audit w) (λ for_audit. refl)

  entry_at :
      (g : A → W → Result C) (o : Option A) (w : W) (a : A) {e : Option C}
      → o ≡ some a
      → collect_entry g o w ≡ ok e
      → (c : C) × (g a w ≡ ok c) × (e ≡ some c)
  entry_at g none w a h k = absurd (cc)
  entry_at g (some b) w a h k =
      let (c, got, same) = >>=-eq_ok _ _ k in
      let b_a : b ≡ a = cc in (c, rw (sym b_a) got, sym (ok_inj same))

  -- A round of a loop that returned.
  pub collect-at :
      (g : Member → A → W → Result C) (d : Present A) (w : W) (e : Present C) (m : Member) (a : A)
      → collect g d w ≡ ok e
      → entry m d ≡ some a
      → (c : C) × (g m a w ≡ ok c) × (entry m e ≡ some c)
  unfolding collect
  collect-at g d w e m a h k =
      let (for_vault, at_vault, h1) = >>=-eq_ok _ _ h in
      let (for_consent, at_consent, h2) = >>=-eq_ok _ _ h1 in
      let (for_audit, at_audit, h3) = >>=-eq_ok _ _ h2 in
      let same = ok_inj h3 in
      rw (sym same) (go m k for_vault for_consent for_audit at_vault at_consent at_audit)
    where
      go :
          (m : Member)
          → entry m d ≡ some a
          → (for_vault : C) (for_consent for_audit : Option C) → g vault d.of_vault w ≡ ok for_vault
          → collect_entry (g consent) d.of_consent w ≡ ok for_consent
          → collect_entry (g audit) d.of_audit w ≡ ok for_audit
          → (c : C) × (g m a w ≡ ok c)
            × (entry m
                  (record { of_vault = for_vault; of_consent = for_consent; of_audit = for_audit })
                ≡ some c)
      go vault k fv fc fa v _ _ = let is : d.of_vault ≡ a = cc in (fv, rw (sym is) v, refl)
      go consent k fv fc fa _ h _ = entry_at (g consent) _ w a k h
      go audit k fv fc fa _ _ h = entry_at (g audit) _ w a k h

  back_at :
      (g : A → W → Result C) (o : Option A) (w : W) (c : C) {e : Option C}
      → collect_entry g o w ≡ ok e
      → e ≡ some c
      → (a : A) × (o ≡ some a) × (g a w ≡ ok c)
  back_at g none w c k h = absurd (cc)
  back_at g (some a) w c k h =
      let (d, got, same) = >>=-eq_ok _ _ k in
      let d_c : d ≡ c = some_inj (ok_inj same ∙ h) in (a, refl, got ∙ ap ok d_c)
    where
      some_inj : {x y : C} → some x ≡ some y → x ≡ y
      some_inj e = cc

  -- Where a value that such a loop gave comes from.
  pub collect-back :
      (g : Member → A → W → Result C) (d : Present A) (w : W) (e : Present C) (m : Member) (c : C)
      → collect g d w ≡ ok e
      → entry m e ≡ some c
      → (a : A) × (entry m d ≡ some a) × (g m a w ≡ ok c)
  unfolding collect
  collect-back g d w e m c h k =
      let (for_vault, at_vault, h1) = >>=-eq_ok _ _ h in
      let (for_consent, at_consent, h2) = >>=-eq_ok _ _ h1 in
      let (for_audit, at_audit, h3) = >>=-eq_ok _ _ h2 in
      go m for_vault for_consent for_audit at_vault at_consent at_audit (rw (ok_inj h3) k)
    where
      go :
          (m : Member) (for_vault : C) (for_consent for_audit : Option C)
          → g vault d.of_vault w ≡ ok for_vault
          → collect_entry (g consent) d.of_consent w ≡ ok for_consent
          → collect_entry (g audit) d.of_audit w ≡ ok for_audit
          → entry m
              (record { of_vault = for_vault; of_consent = for_consent; of_audit = for_audit })
            ≡ some c
          → (a : A) × (entry m d ≡ some a) × (g m a w ≡ ok c)
      go vault fv fc fa v _ _ k = let is : fv ≡ c = cc in (d.of_vault, refl, v ∙ ap ok is)
      go consent fv fc fa _ h _ k = back_at (g consent) d.of_consent w c h k
      go audit fv fc fa _ _ h k = back_at (g audit) d.of_audit w c h k
