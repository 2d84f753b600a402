-- ===== src/Consent/Stored.antt =====
-- What a load gives of the grants that were stored.
use mathlib.Core.Path.{subst₂}
use agent_personal_vault.Prelude.{
  String, ◌≡◌, ◌∙◌, refl, sym, ap, subst, inl, inr, Bool-cases, true, false, Option, none, some,
  List, ◌==◌, if◌then◌else◌,
}
use agent_personal_vault.Result.{ok_inj, ok, Gives, Gives-at, >>=-Gives, ◌>>=◌}
use agent_personal_vault.Python.Json.{
  Json, null, arr, obj, Fields, of_list, to_list-of_list, get, get_or_null, has, put, set_default,
  get-put,
}
use agent_personal_vault.Platform.{Platform}
use agent_personal_vault.Host.{Host}
use agent_personal_vault.Consent.State.{
  require_list, load_from, load_state, check_state, normalize_collection, normalize_state,
  normalize_grant, normalize_request, normalize_records,
}

-- The state has this list of grants.
abbrev pub HasGrants : List Json → Fields → Type 0
HasGrants gs state = get "grants" state ≡ some (arr (of_list gs))

HasGrants-put :
    (key : String) (v : Json) (gs : List Json) (state : Fields)
    → (key == "grants") ≡ false
    → HasGrants gs state
    → HasGrants gs (put key v state)
HasGrants-put key v gs state other has_grants = rw (get-put key "grants" v state, other) has_grants

HasGrants-set_default :
    (key : String) (v : Json) (gs : List Json) (state : Fields)
    → (key == "grants") ≡ false
    → HasGrants gs state
    → HasGrants gs (set_default key v state)
HasGrants-set_default key v gs state other has_grants = elim (Bool-cases (has key state)) [
  | inl there ↦ rw there has_grants
  | inr missing ↦ rw missing (HasGrants-put key v gs state other has_grants)
]

HasGrants-set_default_grants :
    (v : Json) (gs : List Json) (state : Fields)
    → HasGrants gs state
    → HasGrants gs (set_default "grants" v state)
HasGrants-set_default_grants v gs state has_grants =
    subst
      (λ o.
        get "grants"
          (if elim o [ none ↦ false | some _ ↦ true ] then state else put "grants" v state)
        ≡ some (arr (of_list gs)))
      (sym has_grants) has_grants

-- The grants that a state has, where it has a list.
pub require_list-HasGrants :
    (gs : List Json) (state : Fields)
    → HasGrants gs state
    → require_list (get_or_null "grants" state) ≡ ok gs
require_list-HasGrants gs state has_grants =
    subst (λ o. require_list (elim o [ none ↦ null | some v ↦ v ]) ≡ ok gs) (sym has_grants)
      (ap ok (to_list-of_list gs))

module _ (p : Platform) where
  -- A later collection is another entry of the state.
  HasGrants-normalize_requests :
      (gs : List Json) (state : Fields)
      → HasGrants gs state
      → Gives (HasGrants gs) (normalize_collection p "requests" (normalize_request p) state)
  HasGrants-normalize_requests gs state has_grants = split (get "requests" state)
    where
      split :
          (o : Option Json)
          → Gives (HasGrants gs) (elim o [
            | none ↦ ok state
            | some v ↦ require_list v >>= λ js.
                normalize_records p (normalize_request p) js >>= λ js'.
                ok (put "requests" (arr (of_list js')) state)
          ])
      split none = record { post = has_grants }
      split (some v) = >>=-Gives _ _ λ js _. >>=-Gives _ _ λ js' _. record {
        post = HasGrants-put "requests" (arr (of_list js')) gs state refl has_grants;
      }

  abbrev StoredGrants : List Json → Fields → Type 0
  StoredGrants gs stored =
      (js : List Json) × (normalize_records p (normalize_grant p) gs ≡ ok js) × HasGrants js stored

  normalize_grants-StoredGrants :
      (gs : List Json) (state : Fields)
      → HasGrants gs state
      → Gives (StoredGrants gs) (normalize_collection p "grants" (normalize_grant p) state)
  normalize_grants-StoredGrants gs state has_grants =
      subst
        (λ o. Gives (StoredGrants gs) (elim o [
          | none ↦ ok state
          | some v ↦ require_list v >>= λ js. normalize_records p (normalize_grant p) js >>= λ js'.
              ok (put "grants" (arr (of_list js')) state)
        ]))
        (sym has_grants)
        (>>=-Gives _ _ λ js listed. >>=-Gives _ _ λ js' stored. record {
          post = (
            js',
            ap (normalize_records p (normalize_grant p)) (sym (to_list-of_list gs) ∙ ok_inj listed)
                ∙ stored,
            rw (get-put "grants" "grants" (arr (of_list js')) state) refl,
          );
        })

  -- The grants that are stored are the stored forms of the grants.
  pub normalize_state-StoredGrants :
      (gs : List Json) (state : Fields)
      → HasGrants gs state
      → Gives (StoredGrants gs) (normalize_state p state)
  unfolding normalize_state
  normalize_state-StoredGrants gs state has_grants = >>=-Gives _ _ λ s first.
      >>=-Gives _ _ λ s' second.
        let (js, normal, has_js) =
          Gives-at (normalize_grants-StoredGrants gs state has_grants) first in
        record {
          post = (
            js,
            normal,
            HasGrants-put "version" _ js s' refl
                (Gives-at (HasGrants-normalize_requests js s has_js) second),
          );
        }

  -- A load gives the grants of the file.
  pub check_state-HasGrants :
      (gs : List Json) (payload : Fields)
      → HasGrants gs payload
      → Gives (HasGrants gs) (check_state p (obj payload))
  unfolding check_state
  check_state-HasGrants gs payload has_grants = >>=-Gives _ _ λ _ _. >>=-Gives _ _ λ _ _.
      >>=-Gives _ _ λ _ _. >>=-Gives _ _ λ _ _. >>=-Gives _ _ λ _ _. record {
        post = HasGrants-set_default "requests" _ gs _ refl (
            HasGrants-set_default_grants _ gs _
              (HasGrants-set_default "version" _ gs payload refl has_grants));
      }

  pub load_state-HasGrants :
      {W : Type 0} (h : Host W) (gs : List Json) (payload : Fields) (w : W)
      → h.consent_exists w ≡ ok true
      → h.read_consent w ≡ ok (obj payload)
      → HasGrants gs payload
      → Gives (HasGrants gs) (load_state p h w)
  unfolding load_state ◌>>=◌
  load_state-HasGrants h gs payload w exists content has_grants =
      subst₂ (λ there text. Gives (HasGrants gs) (load_from p there text)) (sym exists)
        (sym content) (check_state-HasGrants gs payload has_grants)
