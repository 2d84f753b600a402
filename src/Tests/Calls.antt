-- ===== src/Tests/Calls.antt =====
-- The theorems on calls of tools at concrete inputs.
use agent_personal_vault.Prelude.{◌≡◌, refl}
use agent_personal_vault.Result.{ok, err, ◌>>=◌}
use agent_personal_vault.Python.Json.{str, Fields, end, field, get}
use agent_personal_vault.Mcp.{
  get_requests_only, find_tool, find_property, has_unknown, check_arguments,
  validate_tool_arguments,
}
use agent_personal_vault.Mcp.Admitted.{Admitted, validate_tool_arguments-Admitted}
use agent_personal_vault.Mcp.OneKey.{OneKey, validate_tool_arguments-OneKey}

abbrev request : Fields
request =
    field "key" (str "EMAIL") (field "action" (str "get") (field "purpose" (str "a letter") end))

request_passes : validate_tool_arguments "apv.request_consent" request ≡ ok tt
unfolding validate_tool_arguments find_tool find_property has_unknown check_arguments ◌>>=◌ get
request_passes = refl

bulk_refused :
    validate_tool_arguments "apv.request_consent" (
      field "key" (str "EMAIL") (field "action" (str "env") (field "purpose" (str "a letter") end)))
    ≡ err get_requests_only
unfolding validate_tool_arguments find_tool find_property has_unknown check_arguments ◌>>=◌ get
bulk_refused = refl

validate_tool_arguments-Admitted_example :
    (validate_tool_arguments "apv.request_consent" request ≡ ok tt
      → Admitted "apv.request_consent" request)
    × (Admitted "apv.request_consent" request
        → validate_tool_arguments "apv.request_consent" request ≡ ok tt)
validate_tool_arguments-Admitted_example =
    validate_tool_arguments-Admitted "apv.request_consent" request

validate_tool_arguments-OneKey_example : OneKey request
validate_tool_arguments-OneKey_example = validate_tool_arguments-OneKey request request_passes
