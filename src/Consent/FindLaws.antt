-- ===== src/Consent/FindLaws.antt =====
-- `find_grant` finds the first grant of the token, and a list that is split at such a grant is
-- searched up to it.
use agent_personal_vault.Prelude.{
  String, ◌≡◌, refl, ap, subst, Bool, true, false, Option, none, some, List, [], ◌∷◌, ◌++◌, All,
}
use agent_personal_vault.Result.{ok_inj, Result, ok, err}
use agent_personal_vault.Python.Json.{Json, obj, Fields}
use agent_personal_vault.Consent.Find.{
  Found, replace_found, found_behind_ok, is_grant_of, find_grant,
}

pub some_inj : {A : Type 0} {a b : A} → some a ≡ some b → a ≡ b
some_inj h = cc

module _ (consent_id digest : String) where
  -- A record that the search passes over.
  abbrev pub IsOther : Json → Type 0
  IsOther (obj r) = is_grant_of consent_id digest r ≡ ok false
  IsOther _ = Unit

  -- The list is split at its first grant of the token.
  pub record SplitAt (js : List Json) (f : Found) : Type 0 where
    pub others : All IsOther f.before
    pub matches : is_grant_of consent_id digest f.record_found ≡ ok true
    pub whole : js ≡ replace_found f f.record_found

  SplitAt-behind :
      (j : Json) (js : List Json) (o : Result (Option Found)) {f : Found}
      → IsOther j
      → ((g : Found) → o ≡ ok (some g) → SplitAt js g)
      → found_behind_ok j o ≡ ok (some f)
      → SplitAt (j ∷ js) f
  SplitAt-behind j js (ok none) other rec e = absurd (cc)
  SplitAt-behind j js (err x) other rec e = absurd (cc)
  SplitAt-behind j js (ok (some g)) {f} other rec e =
      let s = rec g refl in
      subst (SplitAt (j ∷ js)) (some_inj (ok_inj e)) (record {
        others = (other, s.others);
        matches = s.matches;
        whole = ap (λ t. j ∷ t) s.whole;
      })

  -- One round at a dict, whose test gave `b`.
  SplitAt-dict :
      (r : Fields) (js : List Json) (b : Result Bool) {f : Found}
      → is_grant_of consent_id digest r ≡ b
      → ((g : Found) → find_grant consent_id digest js ≡ ok (some g) → SplitAt js g)
      → elim b [
        | ok true ↦ ok (some (record { before = []; record_found = r; after = js }))
        | ok false ↦ found_behind_ok (obj r) (find_grant consent_id digest js)
        | err e ↦ err e
      ]
        ≡ ok (some f)
      → SplitAt (obj r ∷ js) f
  SplitAt-dict r js (ok true) t rec e =
      subst (SplitAt (obj r ∷ js)) (some_inj (ok_inj e))
        (record { others = tt; matches = t; whole = refl })
  SplitAt-dict r js (ok false) t rec e = SplitAt-behind (obj r) js _ t rec e
  SplitAt-dict r js (err x) t rec e = absurd (cc)

  pub find_grant-SplitAt :
      (js : List Json) {f : Found} → find_grant consent_id digest js ≡ ok (some f) → SplitAt js f
  unfolding find_grant
  find_grant-SplitAt [] e = absurd (cc)
  find_grant-SplitAt (obj r ∷ js) e = SplitAt-dict r js _ refl (λ g. find_grant-SplitAt js) e
  find_grant-SplitAt (j ∷ js) e = SplitAt-behind j js _ tt (λ g. find_grant-SplitAt js) e

  pub find_grant-split :
      (before : List Json) (r : Fields) (after : List Json)
      → All IsOther before
      → is_grant_of consent_id digest r ≡ ok true
      → find_grant consent_id digest (before ++ (obj r ∷ after))
        ≡ ok (some (record { before = before; record_found = r; after = after }))
  unfolding find_grant
  find_grant-split [] r after others t = rw (t, find_grant) refl
  find_grant-split (obj q ∷ before) r after others t =
      rw (others.0, find_grant)
        (ap (found_behind_ok (obj q)) (find_grant-split before r after others.1 t))
  find_grant-split (j ∷ before) r after others t =
      ap (found_behind_ok j) (find_grant-split before r after others.1 t)
