-- ===== src/Audit/Summary.antt =====
-- `audit_summary` of agent_personal_vault/audit.py.
use agent_personal_vault.Prelude.{
  ℕ, suc, ◌+◌, String, Bool, ◌||◌, Option, none, some, List, [], ◌∷◌, ◌==◌, length, if◌then◌else◌,
}
use agent_personal_vault.Result.{Error, Result, ok, err, ◌>>=◌}
use agent_personal_vault.Python.Json.{pos, Json, str, arr, obj, Fields, get, get_or_null, truthy}
use agent_personal_vault.Platform.{Platform, text_field}
use agent_personal_vault.Host.{Host}
use agent_personal_vault.Audit.{is_operation_state}
use agent_personal_vault.Audit.Log.{Loaded, Tail, audit_tail}

-- A dict from texts to counts: `d[k] = d.get(k, 0) + 1`.
abbrev pub Counts : Type 0
Counts = List (String × ℕ)

unfoldable pub bump : String → Counts → Counts
bump k [] = (k, 1) ∷ []
bump k ((j, n) ∷ d) = let rest = bump k d in if j == k then (j, suc n) ∷ d else (j, n) ∷ rest

-- The last state of each operation: `operation_states[operation_id] = state`.
abbrev pub States : Type 0
States = List (String × String)

unfoldable pub set_state : String → String → States → States
set_state id s [] = (id, s) ∷ []
set_state id s ((j, r) ∷ d) =
    let rest = set_state id s d in if j == id then (j, s) ∷ d else (j, r) ∷ rest

-- `operation_state in OPERATION_STATES`, with the state; a list or a dict has no hash.
abbrev pub known_state : Option Json → Result (Option String)
known_state (some (str s)) = ok (if is_operation_state s then some s else none)
known_state (some (arr _)) = err (Error.type_error)
known_state (some (obj _)) = err (Error.type_error)
known_state _ = ok none

-- `operation_state in {"delivered", "rejected", "outcome_unknown"}`
abbrev pub is_final : String → Bool
is_final s = s == "delivered" || s == "rejected" || s == "outcome_unknown"

pub record Tally : Type 0 where
  pub by_action : Counts
  pub raw_by_key : Counts
  pub operation_states : States

module _ (p : Platform) where
  -- The part of a round that counts the action and the raw value.
  abbrev pub count_event : Fields → Tally → Tally
  count_event d t = record t {
    by_action = bump (text_field p "action" d) t.by_action;
    raw_by_key =
        if truthy p.zero_float (get_or_null "raw_returned" d)
        then bump (text_field p "key" d) t.raw_by_key
        else t.raw_by_key;
  }

  abbrev pub count_state : String → Option String → Fields → Tally → Tally
  count_state id none d t = count_event d t
  count_state id (some s) d t =
      let noted = record t { operation_states = set_state id s t.operation_states } in
      if is_final s then count_event d noted else noted

  -- One round of the loop.
  abbrev pub count_round : Option Json → Fields → Tally → Result Tally
  count_round (some (str id)) d t = do
    state ← known_state (get "operation_state" d)
    ok (count_state id state d t)
  count_round _ d t = ok (count_event d t)

  unfoldable pub summarize : List Fields → Tally → Result Tally
  summarize [] t = ok t
  summarize (d ∷ ds) t = do counted ← count_round (get "operation_id" d) d t; summarize ds counted

-- `sum(state in {...} for state in operation_states.values())`
unfoldable pub count_states : (String → Bool) → States → ℕ
count_states f [] = 0
count_states f ((id, s) ∷ d) = let rest = count_states f d in if f s then suc rest else rest

pub record Summary : Type 0 where
  pub events : ℕ
  pub by_action : Counts
  pub raw_access_by_key : Counts
  pub malformed_records_skipped : ℕ
  pub integrity_warning : Bool
  pub delivered : ℕ
  pub rejected : ℕ
  pub outcome_unknown : ℕ
  pub incomplete_operations : ℕ

-- `{"prepared", "committed"}`
abbrev pub is_incomplete : String → Bool
is_incomplete s = s == "prepared" || s == "committed"

abbrev pub empty_tally : Tally
empty_tally = record { by_action = []; raw_by_key = []; operation_states = [] }

unfoldable pub summary_of : Tail → Tally → Summary
unfolding count_states
summary_of result t =
    let incomplete = count_states is_incomplete t.operation_states in
    record {
      events = length result.shown;
      by_action = t.by_action;
      raw_access_by_key = t.raw_by_key;
      malformed_records_skipped = result.malformed_records_skipped;
      integrity_warning = result.integrity_warning;
      delivered = count_states (λ s. s == "delivered") t.operation_states;
      rejected = count_states (λ s. s == "rejected") t.operation_states;
      outcome_unknown = count_states (λ s. s == "outcome_unknown") t.operation_states + incomplete;
      incomplete_operations = incomplete;
    }

module _ {W : Type 0} (p : Platform) (loads : String → Loaded) (h : Host W) where
  unfoldable pub audit_summary : W → Result Summary
  unfolding audit_tail summarize summary_of
  audit_summary w = do
    result ← audit_tail p loads h (pos 0) w
    t ← summarize p result.shown empty_tally
    ok (summary_of result t)
