-- ===== src/Mcp/Admitted.antt =====
-- Which calls the check of mcp_server.py lets through.
use agent_personal_vault.Prelude.{
  String, ◌≡◌, refl, sym, Bool, subst, true, false, Option, none, some, List,
}
use agent_personal_vault.Result.{ok, >>=-eq_ok, raise_if-eq_ok, require-eq_ok, ◌>>=◌}
use agent_personal_vault.Python.Json.{Json, str, Fields, end, field}
use agent_personal_vault.Mcp.{
  Properties, Tool, tool_definitions, find_tool, find_property, has_unknown, lacks_required, among,
  check_choice, check_argument, check_arguments, validate_tool_arguments,
}

-- A value is one of the choices, if there are choices.
abbrev pub allowed : Option (List String) → String → Bool
allowed none value = true
allowed (some choices) value = among choices value

-- Every argument is a text, of a property of the tool, and of the property's choices.
pub data AllAdmitted (properties : Properties) : Fields → Type 0 where
  no_more : AllAdmitted properties end
  admitted :
      {key value : String} {arguments : Fields} {choices : Option (List String)}
      → find_property key properties ≡ some choices
      → allowed choices value ≡ true
      → AllAdmitted properties arguments
      → AllAdmitted properties (field key (str value) arguments)

-- A call of a tool that exists, with every required argument and no other than admitted ones.
pub record Admitted (name : String) (arguments : Fields) : Type 0 where
  pub tool : Tool
  pub found : find_tool name tool_definitions ≡ ok tool
  pub complete : lacks_required tool.required arguments ≡ false
  pub each : AllAdmitted tool.properties arguments

check_choice-allowed :
    (name key : String) (choices : Option (List String)) (value : String) {u : Unit {0}}
    → check_choice name key choices value ≡ ok u
    → allowed choices value ≡ true
check_choice-allowed name key none value e = refl
check_choice-allowed name key (some choices) value e = require-eq_ok _ _ e

allowed-check_choice :
    (name key : String) (choices : Option (List String)) (value : String)
    → allowed choices value ≡ true
    → check_choice name key choices value ≡ ok tt
allowed-check_choice name key none value h = refl
allowed-check_choice name key (some choices) value h = rw h refl

-- An argument that passes is a text that its property allows.
abbrev pub Passed : Properties → String → Json → Type 0
Passed properties key v =
    (value : String) × (choices : Option (List String)) × (v ≡ str value)
    × (find_property key properties ≡ some choices)
    × (allowed choices value ≡ true)

check_argument-Passed :
    (name : String) (properties : Properties) (key : String) (v : Json)
    (found : Option (Option (List String))) {u : Unit {0}}
    → find_property key properties ≡ found
    → check_argument name key found v ≡ ok u
    → Passed properties key v
check_argument-Passed name properties key v none f e = absurd (cc)
check_argument-Passed name properties key (str value) (some choices) f e =
    (value, choices, refl, f, check_choice-allowed name key choices value e)
check_argument-Passed name properties key _ (some choices) f e = absurd (cc)

check_arguments-AllAdmitted :
    (name : String) (properties : Properties) (arguments : Fields) {u : Unit {0}}
    → check_arguments name properties arguments ≡ ok u
    → AllAdmitted properties arguments
unfolding check_arguments
check_arguments-AllAdmitted name properties end e = no_more
check_arguments-AllAdmitted name properties (field key v arguments) e =
    let (_, passed, rest) = >>=-eq_ok _ _ e in
    let (value, choices, text, found, chosen) =
      check_argument-Passed name properties key v (find_property key properties) refl passed in
    subst (λ x. AllAdmitted properties (field key x arguments)) (sym text)
      (admitted found chosen (check_arguments-AllAdmitted name properties arguments rest))

AllAdmitted-check_arguments :
    (name : String) (properties : Properties) (arguments : Fields)
    → AllAdmitted properties arguments
    → (has_unknown properties arguments ≡ false)
      × (check_arguments name properties arguments ≡ ok tt)
unfolding has_unknown check_arguments ◌>>=◌
AllAdmitted-check_arguments name properties _ no_more = (refl, refl)
AllAdmitted-check_arguments name properties _
      (admitted {key} {value} {arguments} {choices} found chosen rest) =
    let (known, checked) = AllAdmitted-check_arguments name properties arguments rest in
    (
      rw (found, known) refl,
      rw (found, allowed-check_choice name key choices value chosen, checked) refl,
    )

passes :
    (name : String) (arguments : Fields)
    → validate_tool_arguments name arguments ≡ ok tt
    → Admitted name arguments
unfolding validate_tool_arguments
passes name arguments e =
    let (tool, found, e1) = >>=-eq_ok _ _ e in
    let (_, _, e2) = >>=-eq_ok _ _ e1 in
    let (_, complete, e3) = >>=-eq_ok _ _ e2 in
    record {
      tool = tool;
      found = found;
      complete = raise_if-eq_ok _ _ complete;
      each = check_arguments-AllAdmitted name tool.properties arguments e3;
    }

passed :
    (name : String) (arguments : Fields)
    → Admitted name arguments
    → validate_tool_arguments name arguments ≡ ok tt
unfolding validate_tool_arguments ◌>>=◌
passed name arguments a =
    let (known, checked) = AllAdmitted-check_arguments name a.tool.properties arguments a.each in
    rw (a.found, known, a.complete, checked) refl

-- The check of a call's arguments passes exactly the admitted calls: those of a tool that exists, with
-- every required argument, where each argument is a text, of a property of the tool, and one of the
-- property's choices, if it has choices.
pub validate_tool_arguments-Admitted :
    (name : String) (arguments : Fields)
    → (validate_tool_arguments name arguments ≡ ok tt → Admitted name arguments)
      × (Admitted name arguments → validate_tool_arguments name arguments ≡ ok tt)
validate_tool_arguments-Admitted name arguments = (passes name arguments, passed name arguments)
