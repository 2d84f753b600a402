-- ===== src/Mcp/OneKey.antt =====
-- What a consent request through mcp_server.py can ask for.
use agent_personal_vault.Prelude.{
  String, ◌≡◌, refl, ap, not, ◌||◌, sym, ◌∙◌, inl, inr, Bool, Bool-cases, subst, true, false,
  Option, none, some, List, [], ◌∷◌, ◌==◌, eq_iff, arith, if◌then◌else◌,
}
use agent_personal_vault.Result.{ok, ok_inj}
use agent_personal_vault.Python.Json.{Json, str, Fields, get}
use agent_personal_vault.Mcp.{
  Properties, Tool, find_tool, find_property, lacks_required, among, validate_tool_arguments,
}
use agent_personal_vault.Mcp.Admitted.{
  AllAdmitted, no_more, admitted, allowed, Passed, Admitted, validate_tool_arguments-Admitted,
}

if_true :
    (b : Bool) (x y : Option Json) {z : Option Json} → b ≡ true → (if b then x else y) ≡ z → x ≡ z
if_true true x y h e = e
if_true false x y h e = absurd (cc)

if_false :
    (b : Bool) (x y : Option Json) {z : Option Json} → b ≡ false → (if b then x else y) ≡ z → y ≡ z
if_false true x y h e = absurd (cc)
if_false false x y h e = e

-- An argument of an admitted call is a text of its property's choices.
get-allowed :
    (properties : Properties) (arguments : Fields) (key : String) (v : Json)
    → AllAdmitted properties arguments
    → get key arguments ≡ some v
    → Passed properties key v
unfolding get
get-allowed properties _ key v no_more e = absurd (cc)
get-allowed properties _ key v (admitted {key = j} {value} {arguments} {choices} found chosen rest)
      e =
    elim (Bool-cases (j == key)) [
      | inl same ↦ (
        value,
        choices,
        value_of (if_true (j == key) _ _ same e),
        subst (λ k. find_property k properties ≡ some choices) ((eq_iff j key).0 same) found,
        chosen,
      )
      | inr other ↦ get-allowed properties arguments key v rest (if_false (j == key) _ _ other e)
    ]
  where
    value_of : ◌≡◌ {A = Option Json} (some (str value)) (some v) → v ≡ str value
    value_of h = cc

-- A required argument is there.
required-given :
    (required : List String) (arguments : Fields) (key : String)
    → among required key ≡ true
    → lacks_required required arguments ≡ false
    → (v : Json) × (get key arguments ≡ some v)
required-given [] arguments key h e = absurd (cc)
required-given (k ∷ ks) arguments key h e = elim (Bool-cases (k == key)) [
  | inl same ↦
      subst (λ x. (v : Json) × (get x arguments ≡ some v)) ((eq_iff k key).0 same)
        (given (get k arguments) refl (first_given _ _ e))
  | inr other ↦ required-given ks arguments key (rest_among _ _ other h) (rest_given _ _ e)
]
  where
    first_given : (a b : Bool) → (not a || b) ≡ false → a ≡ true
    first_given a b h = ground arith

    rest_given : (a b : Bool) → (not a || b) ≡ false → b ≡ false
    rest_given a b h = ground arith

    rest_among : (a b : Bool) → a ≡ false → (a || b) ≡ true → b ≡ true
    rest_among a b n h = ground arith

    given :
        (o : Option Json)
        → get k arguments ≡ o
        → (elim o [ none ↦ false | some _ ↦ true ]) ≡ true
        → (v : Json) × (get k arguments ≡ some v)
    given none e h = absurd (cc)
    given (some v) e h = (v, e)

-- The call asks for one key by `get`, and gives a purpose.
pub record OneKey (arguments : Fields) : Type 0 where
  pub action : get "action" arguments ≡ some (str "get")
  pub key : String
  pub has_key : get "key" arguments ≡ some (str key)
  pub purpose : String
  pub has_purpose : get "purpose" arguments ≡ some (str purpose)

abbrev consent_tool : Tool
consent_tool = record {
  name = "apv.request_consent";
  properties = ("action", some ("get" ∷ [])) ∷ ("key", none) ∷ ("purpose", none) ∷ [];
  required = "action" ∷ "key" ∷ "purpose" ∷ [];
}

-- A required argument of the tool `apv.request_consent` is an allowed text.
abbrev TextGiven : Fields → String → Type 0
TextGiven arguments key =
    (value : String) × (get key arguments ≡ some (str value))
    × ((choices : Option (List String)) × (find_property key consent_tool.properties ≡ some choices)
        × (allowed choices value ≡ true))

admitted-TextGiven :
    (arguments : Fields) (key : String)
    → Admitted "apv.request_consent" arguments
    → among consent_tool.required key ≡ true
    → TextGiven arguments key
unfolding find_tool
admitted-TextGiven arguments key a listed =
    let same = ok_inj a.found in
    let complete = subst (λ t. lacks_required t.required arguments ≡ false) (sym same) a.complete in
    let each = subst (λ t. AllAdmitted t.properties arguments) (sym same) a.each in
    let (v, e) = required-given consent_tool.required arguments key listed complete in
    let (value, choices, text, found, chosen) =
      get-allowed consent_tool.properties arguments key v each e in
    (value, e ∙ ap some text, (choices, found, chosen))

get_chosen :
    (choices : Option (List String)) (value : String)
    → find_property "action" consent_tool.properties ≡ some choices
    → allowed choices value ≡ true
    → value ≡ "get"
unfolding find_property
get_chosen choices value found chosen =
    let same = choices_inj found in
    let listed = subst (λ c. allowed c value ≡ true) (sym same) chosen in
    sym ((eq_iff "get" value).0 (or_false _ listed))
  where
    choices_inj : {c d : Option (List String)} → some c ≡ some d → c ≡ d
    choices_inj h = cc

    or_false : (b : Bool) → (b || false) ≡ true → b ≡ true
    or_false b h = ground arith

-- If the check of the arguments passes a call of `apv.request_consent`, then the call's action is `get`,
-- and its key and its purpose are texts.
pub validate_tool_arguments-OneKey :
    (arguments : Fields)
    → validate_tool_arguments "apv.request_consent" arguments ≡ ok tt
    → OneKey arguments
validate_tool_arguments-OneKey arguments e =
    let a = (validate_tool_arguments-Admitted "apv.request_consent" arguments).0 e in
    let (action, has_action, (choices, found, chosen)) =
      admitted-TextGiven arguments "action" a refl in
    let (key, has_key, _) = admitted-TextGiven arguments "key" a refl in
    let (purpose, has_purpose, _) = admitted-TextGiven arguments "purpose" a refl in
    record {
      action = has_action ∙ ap (λ s. some (str s)) (get_chosen choices action found chosen);
      key = key;
      has_key = has_key;
      purpose = purpose;
      has_purpose = has_purpose;
    }
