-- ===== src/Consent/Pruning.antt =====
-- What `prune_consent_records` of agent_personal_vault/consent.py may drop.
use agent_personal_vault.Prelude.{
  ℕ, ◌<◌, ◌≤◌, ◌≡◌, sym, subst, true, false, Bool-cases, inl, inr, Option, none, some, List, [],
  ◌∷◌, leb, arith, if◌then◌else◌,
}
use agent_personal_vault.Result.{Result, ok, Gives, Gives-at, >>=-Gives}
use agent_personal_vault.Python.Json.{Json, obj, Fields}
use agent_personal_vault.Consent.Prune.{is_retained, retain}

-- The list `kept` has the records of `js` in their order, without some that came to their end before
-- the cutoff; no other record is missing.
pub data Pruning (terminal_at : Fields → Result (Option ℕ)) (cutoff : ℕ)
    : List Json → List Json → Type 0 where
  done : Pruning terminal_at cutoff [] []
  keep :
      {js kept : List Json} (r : Fields) (t : Option ℕ)
      → terminal_at r ≡ ok t
      → ((ended : ℕ) → t ≡ some ended → cutoff ≤ ended)
      → Pruning terminal_at cutoff js kept
      → Pruning terminal_at cutoff (obj r ∷ js) (obj r ∷ kept)
  drop :
      {js kept : List Json} (r : Fields) (ended : ℕ)
      → terminal_at r ≡ ok (some ended)
      → ended < cutoff
      → Pruning terminal_at cutoff js kept
      → Pruning terminal_at cutoff (obj r ∷ js) kept

module _ (terminal_at : Fields → Result (Option ℕ)) (cutoff : ℕ) where
  choose :
      {js kept : List Json} (r : Fields) (t : Option ℕ)
      → terminal_at r ≡ ok t
      → Pruning terminal_at cutoff js kept
      → Pruning terminal_at cutoff
          (obj r ∷ js)
          (if is_retained cutoff t then obj r ∷ kept else kept)
  choose r none e rest = keep r none e (λ ended h. absurd (cc)) rest
  choose {js} {kept} r (some t) e rest = elim (Bool-cases (leb cutoff t)) [
    | inl late ↦
        subst (λ b. Pruning terminal_at cutoff (obj r ∷ js) (if b then obj r ∷ kept else kept))
          (sym late)
          (keep r (some t) e
            (λ ended h.
              subst (λ o. elim o [ none ↦ Unit | some n ↦ cutoff ≤ n ]) h (at_most t late))
            rest)
    | inr early ↦
        subst (λ b. Pruning terminal_at cutoff (obj r ∷ js) (if b then obj r ∷ kept else kept))
          (sym early) (drop r t e (below t early) rest)
  ]
    where
      at_most : (t : ℕ) → leb cutoff t ≡ true → cutoff ≤ t
      at_most t h = ground arith

      below : (t : ℕ) → leb cutoff t ≡ false → t < cutoff
      below t h = ground arith

  -- The loop over the records drops those that came to their end before the cutoff, and no other.
  pub retain-Pruning :
      (js kept : List Json)
      → retain terminal_at cutoff js ≡ ok kept
      → Pruning terminal_at cutoff js kept
  unfolding retain
  retain-Pruning js kept e = Gives-at (step js) e
    where
      step : (js : List Json) → Gives (Pruning terminal_at cutoff js) (retain terminal_at cutoff js)
      step [] = record { post = done }
      step (obj r ∷ js) = >>=-Gives _ _ λ t ended.
          >>=-Gives _ _ λ kept rest. record { post = choose r t ended (Gives-at (step js) rest) }
      step (_ ∷ js) = record { post = tt }
