-- ===== src/Consent/StoredRequests.antt =====
-- What a normalization gives of the requests of a consent state.
use agent_personal_vault.Prelude.{
  String, ◌≡◌, ◌∙◌, refl, sym, ap, subst, false, Option, none, some, List, ◌==◌,
}
use agent_personal_vault.Result.{ok_inj, ok, Gives, Gives-at, >>=-Gives, ◌>>=◌}
use agent_personal_vault.Python.Json.{
  Json, arr, Fields, of_list, to_list-of_list, get, put, get-put,
}
use agent_personal_vault.Platform.{Platform}
use agent_personal_vault.Consent.State.{
  require_list, normalize_collection, normalize_state, normalize_grant, normalize_request,
  normalize_records,
}

-- The state has this list of requests.
abbrev pub HasRequests : List Json → Fields → Type 0
HasRequests rs state = get "requests" state ≡ some (arr (of_list rs))

HasRequests-put :
    (key : String) (v : Json) (rs : List Json) (state : Fields)
    → (key == "requests") ≡ false
    → HasRequests rs state
    → HasRequests rs (put key v state)
HasRequests-put key v rs state other has_requests =
    rw (get-put key "requests" v state, other) has_requests

module _ (p : Platform) where
  HasRequests-normalize_grants :
      (rs : List Json) (state : Fields)
      → HasRequests rs state
      → Gives (HasRequests rs) (normalize_collection p "grants" (normalize_grant p) state)
  HasRequests-normalize_grants rs state has_requests = split (get "grants" state)
    where
      split :
          (o : Option Json)
          → Gives (HasRequests rs) (elim o [
            | none ↦ ok state
            | some v ↦ require_list v >>= λ js.
                normalize_records p (normalize_grant p) js >>= λ js'.
                ok (put "grants" (arr (of_list js')) state)
          ])
      split none = record { post = has_requests }
      split (some v) = >>=-Gives _ _ λ js _. >>=-Gives _ _ λ js' _. record {
        post = HasRequests-put "grants" (arr (of_list js')) rs state refl has_requests;
      }

  abbrev pub StoredRequests : List Json → Fields → Type 0
  StoredRequests rs stored =
      (js : List Json) × (normalize_records p (normalize_request p) rs ≡ ok js)
      × HasRequests js stored

  normalize_requests-StoredRequests :
      (rs : List Json) (state : Fields)
      → HasRequests rs state
      → Gives (StoredRequests rs) (normalize_collection p "requests" (normalize_request p) state)
  normalize_requests-StoredRequests rs state has_requests =
      subst
        (λ o. Gives (StoredRequests rs) (elim o [
          | none ↦ ok state
          | some v ↦ require_list v >>= λ js.
              normalize_records p (normalize_request p) js >>= λ js'.
              ok (put "requests" (arr (of_list js')) state)
        ]))
        (sym has_requests)
        (>>=-Gives _ _ λ js listed. >>=-Gives _ _ λ js' stored. record {
          post = (
            js',
            ap (normalize_records p (normalize_request p))
                  (sym (to_list-of_list rs) ∙ ok_inj listed)
                ∙ stored,
            rw (get-put "requests" "requests" (arr (of_list js')) state) refl,
          );
        })

  -- The requests that are stored are the stored forms of the requests.
  pub normalize_state-StoredRequests :
      (rs : List Json) (state : Fields)
      → HasRequests rs state
      → Gives (StoredRequests rs) (normalize_state p state)
  unfolding normalize_state
  normalize_state-StoredRequests rs state has_requests = >>=-Gives _ _ λ s first.
      >>=-Gives _ _ λ s' second.
        let (js, normal, has_js) =
          Gives-at
            (normalize_requests-StoredRequests rs s
              (Gives-at (HasRequests-normalize_grants rs state has_requests) first))
            second in
        record { post = (js, normal, HasRequests-put "version" _ js s' refl has_js) }
