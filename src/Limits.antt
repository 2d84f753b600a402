-- ===== src/Limits.antt =====
-- agent_personal_vault/resource_limits.py: the hard limits, and the check of a parsed JSON value.
pub mod Equivalence
use agent_personal_vault.Prelude.{ℕ, zero, suc, ◌+◌, ◌*◌, String, List, [], ◌∷◌, ltb, if◌then◌else◌}
use agent_personal_vault.Result.{Result, ok, err, resource_limit_error, ◌>>◌}
use agent_personal_vault.Python.Text.{◌^^◌, utf8_size}
use agent_personal_vault.Python.Json.{Json, str, arr, obj, Items, nil, cons, Fields, end, field}

abbrev pub max_private_json_bytes : ℕ
max_private_json_bytes = 12 * 1024 * 1024

abbrev pub max_json_depth : ℕ
max_json_depth = 32

abbrev pub max_json_nodes : ℕ
max_json_nodes = 20_000

abbrev pub max_json_string_bytes : ℕ
max_json_string_bytes = max_private_json_bytes

abbrev pub max_field_value_bytes : ℕ
max_field_value_bytes = 64 * 1024

abbrev pub max_purpose_bytes : ℕ
max_purpose_bytes = 4 * 1024

abbrev pub max_consent_records : ℕ
max_consent_records = 2_000

abbrev pub max_audit_bytes : ℕ
max_audit_bytes = 8 * 1024 * 1024

unfoldable pub require_text_limit : String → ℕ → String → Result String
require_text_limit value max_bytes label =
    if ltb max_bytes (utf8_size value)
    then err (resource_limit_error (label ^^ " exceeds the supported size limit"))
    else ok value

-- The values that wait, the next one first, each with its depth.
abbrev pub Stack : Type 0
Stack = List (Json × ℕ)

-- `stack.extend((child, depth + 1) for child in current)`: the last child is popped first.
abbrev pub extend : Items → ℕ → Stack → Stack
extend nil depth stack = stack
extend (cons child js) depth stack = extend js depth ((child, depth + 1) ∷ stack)

-- The loop over `current.items()`. A key of a parsed object is a text.
abbrev pub extend_items : Fields → ℕ → Stack → Result Stack
extend_items end depth stack = ok stack
extend_items (field key child d) depth stack =
    require_text_limit key max_json_string_bytes "JSON object key"
    >> extend_items d depth ((child, depth + 1) ∷ stack)

-- What one round pushes for the value that it popped.
abbrev pub expand : Json → ℕ → Stack → Result Stack
expand (str s) depth stack = require_text_limit s max_json_string_bytes "JSON string" >> ok stack
expand (obj d) depth stack = extend_items d depth stack
expand (arr js) depth stack = ok (extend js depth stack)
expand _ depth stack = ok stack

-- The `while stack` loop. `remaining` falls in each round, so it bounds the rounds. The call for
-- the rest waits until the round has passed its tests.
pub drain : ℕ → Stack → Result (Unit {0})
drain remaining [] = ok tt
drain zero (_ ∷ _) = err (resource_limit_error "JSON state exceeds the supported structure limit")
drain (suc remaining) ((current, depth) ∷ stack) =
    if ltb max_json_depth depth
    then err (resource_limit_error "JSON state exceeds the supported depth limit")
    else elim (expand current depth stack) [ ok rest ↦ drain remaining rest | err e ↦ err e ]

unfoldable pub validate_json_resources : Json → Result (Unit {0})
unfolding drain
validate_json_resources value = drain max_json_nodes ((value, 1) ∷ [])
