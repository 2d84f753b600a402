-- ===== src/Consent/Find.antt =====
-- The loops of agent_personal_vault/consent.py that look for one record.
use agent_personal_vault.Prelude.{
  String, Bool, true, false, Option, none, some, List, [], ◌∷◌, ◌++◌, ◌==◌, if◌then◌else◌,
}
use agent_personal_vault.Result.{Error, Result, ok, err}
use agent_personal_vault.Python.Json.{Json, null, str, obj, Fields, get, get_or_null}
use agent_personal_vault.Consent.Record.{validate_token_digest}

-- A list split at the record that a loop stops at.
pub record Found : Type 0 where
  pub before : List Json
  pub record_found : Fields
  pub after : List Json

-- The list with that record changed.
abbrev pub replace_found : Found → Fields → List Json
replace_found f r = f.before ++ (obj r ∷ f.after)

abbrev pub found_behind : Json → Option Found → Option Found
found_behind j none = none
found_behind j (some f) = some (record f { before = j ∷ f.before })

-- `request.get("id") == request_id`
abbrev pub has_text : String → String → Fields → Bool
has_text key text r = elim (get key r) [ some (str s) ↦ s == text | _ ↦ false ]

-- `for request in requests`, up to the first dict with the id
unfoldable pub find_request : String → List Json → Option Found
find_request id [] = none
find_request id (obj r ∷ js) =
    let rest = find_request id js in
    if has_text "id" id r
    then some (record { before = []; record_found = r; after = js })
    else found_behind (obj r) rest
find_request id (j ∷ js) = found_behind j (find_request id js)

-- The test on the stored digest, if there is one, and else the test on the id, which gave `by_id`.
unfoldable pub match_token : Bool → String → Json → Result Bool
match_token by_id digest null = ok by_id
match_token by_id digest v = elim (validate_token_digest v) [
  | ok stored ↦ ok (stored == digest)
  | err e ↦ err e
]

-- Whether a stored grant is the one of the given token; a stored digest that is malformed raises.
unfoldable pub is_grant_of : String → String → Fields → Result Bool
is_grant_of consent_id digest r =
    match_token (has_text "id" consent_id r) digest (get_or_null "token_digest" r)

abbrev pub found_behind_ok : Json → Result (Option Found) → Result (Option Found)
found_behind_ok j (ok o) = ok (found_behind j o)
found_behind_ok j (err e) = err e

-- `for grant in grants`, up to the first dict that is the grant of the token
unfoldable pub find_grant : String → String → List Json → Result (Option Found)
find_grant consent_id digest [] = ok none
find_grant consent_id digest (obj r ∷ js) =
    let rest = find_grant consent_id digest js in
    elim (is_grant_of consent_id digest r) [
      | ok true ↦ ok (some (record { before = []; record_found = r; after = js }))
      | ok false ↦ found_behind_ok (obj r) rest
      | err e ↦ err e
    ]
find_grant consent_id digest (j ∷ js) = found_behind_ok j (find_grant consent_id digest js)

abbrev pub or_raise : Option Found → Error → Result Found
or_raise none e = err e
or_raise (some f) _ = ok f
