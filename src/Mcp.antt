-- ===== src/Mcp.antt =====
-- agent_personal_vault/mcp_server.py: the tools, and the check of a call's arguments.
pub mod Admitted
pub mod OneKey
use agent_personal_vault.Prelude.{
  String, Bool, true, false, not, ◌||◌, Option, none, some, List, [], ◌∷◌, ◌==◌, if◌then◌else◌,
}
use agent_personal_vault.Result.{
  Error, Result, ok, err, key_error, value_error, require, raise_if, ◌>>=◌, ◌>>◌,
}
use agent_personal_vault.Python.Json.{Json, str, Fields, end, field, has}

-- The schema of one property: every property has the type "string", and one has an enum.
abbrev pub Properties : Type 0
Properties = List (String × Option (List String))

-- One entry of `tool_definitions`, without its description. No tool has additional properties.
pub record Tool : Type 0 where
  pub name : String
  pub properties : Properties
  pub required : List String

abbrev pub bare_tool : String → Tool
bare_tool name = record { name = name; properties = []; required = [] }

abbrev pub tool_definitions : List Tool
tool_definitions =
    bare_tool "apv.schema"
    ∷ record { name = "apv.context"; properties = ("task", none) ∷ []; required = [] }
    ∷ bare_tool "apv.check"
    ∷ bare_tool "apv.list_masked"
    ∷ record {
      name = "apv.request_consent";
      properties = ("action", some ("get" ∷ [])) ∷ ("key", none) ∷ ("purpose", none) ∷ [];
      required = "action" ∷ "key" ∷ "purpose" ∷ [];
    }
    ∷ []

abbrev pub invalid_arguments : Error
invalid_arguments = value_error "Invalid arguments"

abbrev pub get_requests_only : Error
get_requests_only =
    value_error
      "MCP request_consent supports one-key get requests only; bulk env requests are not part of the public-alpha agent path"

-- `tools[name]`
unfoldable pub find_tool : String → List Tool → Result Tool
find_tool name [] = err (key_error name)
find_tool name (tool ∷ tools) =
    let rest = find_tool name tools in if tool.name == name then ok tool else rest

-- `properties.get(key)`
unfoldable pub find_property : String → Properties → Option (Option (List String))
find_property key [] = none
find_property key ((name, choices) ∷ properties) =
    let rest = find_property key properties in if name == key then some choices else rest

-- `any(key not in properties for key in arguments)`
unfoldable pub has_unknown : Properties → Fields → Bool
unfolding find_property
has_unknown properties end = false
has_unknown properties (field key v arguments) =
    elim (find_property key properties) [ none ↦ true | some _ ↦ false ]
    || has_unknown properties arguments

-- `any(key not in arguments for key in required)`
abbrev pub lacks_required : List String → Fields → Bool
lacks_required [] arguments = false
lacks_required (key ∷ required) arguments =
    not (has key arguments) || lacks_required required arguments

abbrev pub among : List String → String → Bool
among [] s = false
among (t ∷ ts) s = t == s || among ts s

-- A value outside of the enum of its property.
abbrev pub enum_error : String → String → Error
enum_error name key =
    if name == "apv.request_consent"
    then (if key == "action" then get_requests_only else invalid_arguments)
    else invalid_arguments

abbrev pub check_choice : String → String → Option (List String) → String → Result (Unit {0})
check_choice name key none value = ok tt
check_choice name key (some choices) value = require (among choices value) (enum_error name key)

-- One round of the loop over the arguments; a key without a property is a `KeyError`.
abbrev pub check_argument :
    String → String → Option (Option (List String)) → Json → Result (Unit {0})
check_argument name key none v = err (key_error key)
check_argument name key (some choices) (str value) = check_choice name key choices value
check_argument name key (some choices) _ = err invalid_arguments

unfoldable pub check_arguments : String → Properties → Fields → Result (Unit {0})
unfolding find_property
check_arguments name properties end = ok tt
check_arguments name properties (field key v arguments) = do
  check_argument name key (find_property key properties) v
  check_arguments name properties arguments

unfoldable pub validate_tool_arguments : String → Fields → Result (Unit {0})
unfolding find_tool has_unknown check_arguments
validate_tool_arguments name arguments = do
  tool ← find_tool name tool_definitions
  raise_if (has_unknown tool.properties arguments) invalid_arguments
  raise_if (lacks_required tool.required arguments) invalid_arguments
  check_arguments name tool.properties arguments
