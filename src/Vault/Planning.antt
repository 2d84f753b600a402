-- ===== src/Vault/Planning.antt =====
-- `planning_hints` of agent_personal_vault/vault.py.
use Prim.Native.String.{[], ◌∷◌}
use agent_personal_vault.Prelude.{
  ℕ, zero, suc, String, Bool, true, false, not, ◌||◌, Option, none, some, List, ◌==◌, ltb, leb,
  if◌then◌else◌,
}
use agent_personal_vault.Result.{Result, ok, ◌>>=◌}
use agent_personal_vault.Python.Text.{size, take, has_prefix}
use agent_personal_vault.Python.Words.{collapse, strip}
use agent_personal_vault.Python.Json.{Json, bool, str, arr, obj, Fields, end, field, put, of_list}
use agent_personal_vault.Platform.{Platform, to_text}
use agent_personal_vault.Schemas.{Schema, FieldSpec, derived_labels}
use agent_personal_vault.Vault.Shape.{get_schema}
use agent_personal_vault.Vault.Context.{
  schema_entry, field_values, is_filled, derived_fields, agent_context,
}
use agent_personal_vault.Vault.Hints.{TaskHint, task_hints}

-- `keyword in s`
unfoldable pub contains : String → String → Bool
contains keyword [] = has_prefix keyword []
contains keyword (c ∷ s) = has_prefix keyword (c ∷ s) || contains keyword s

-- `s.replace(keyword, " ")`, from left to right; the count skips the rest of a match
unfoldable pub replace_from : String → ℕ → String → String
replace_from keyword skip [] = []
replace_from keyword (suc skip) (c ∷ s) = replace_from keyword skip s
replace_from keyword zero (c ∷ s) =
    let matched = replace_from keyword (pred (size keyword)) s in
    let rest = replace_from keyword zero s in
    if has_prefix keyword (c ∷ s) then " " ∷ matched else c ∷ rest
  where
    pred : ℕ → ℕ
    pred zero = zero
    pred (suc n) = n

-- A stable sort: an element stands before those that it precedes or is equal to.
abbrev pub insert_by {ℓ} : {A : Type ℓ} → (A → A → Bool) → A → List A → List A
insert_by before x List.[] = List.◌∷◌ x List.[]
insert_by before x (List.◌∷◌ y ys) =
    let rest = insert_by before x ys in
    if before x y then List.◌∷◌ x (List.◌∷◌ y ys) else List.◌∷◌ y rest

abbrev pub sort_by {ℓ} : {A : Type ℓ} → (A → A → Bool) → List A → List A
sort_by before List.[] = List.[]
sort_by before (List.◌∷◌ x xs) = insert_by before x (sort_by before xs)

abbrev pub map_list : {A B : Type 0} → (A → B) → List A → List B
map_list f List.[] = List.[]
map_list f (List.◌∷◌ x xs) = List.◌∷◌ (f x) (map_list f xs)

abbrev pub some_of : {A : Type 0} → (A → Bool) → List A → Bool
some_of f List.[] = false
some_of f (List.◌∷◌ x xs) = f x || some_of f xs

abbrev pub is_seen : List String → String → Bool
is_seen seen key = some_of (λ k. k == key) seen

abbrev pub longest : List String → ℕ
longest List.[] = 0
longest (List.◌∷◌ k ks) = let n = longest ks in if ltb n (size k) then size k else n

abbrev pub Numbered : Type 0
Numbered = ℕ × TaskHint

abbrev pub enumerate : ℕ → List TaskHint → List Numbered
enumerate n List.[] = List.[]
enumerate n (List.◌∷◌ h hs) = List.◌∷◌ (n, h) (enumerate (suc n) hs)

-- `sorted(enumerate(TASK_HINTS), key=..., reverse=True)`
unfoldable pub specific_first : List Numbered
specific_first =
    sort_by (λ a b. leb (longest b.1.keywords) (longest a.1.keywords)) (enumerate 0 task_hints)

module _ (lower : String → String) where
  -- the keywords of a hint, the longest first
  abbrev pub sorted_keywords : TaskHint → List String
  sorted_keywords h = sort_by (λ a b. leb (size b) (size a)) (map_list lower h.keywords)

  abbrev pub replace_all : List String → String → String
  replace_all List.[] query = query
  replace_all (List.◌∷◌ k ks) query = replace_all ks (replace_from k zero query)

  -- The loop that selects the hints.
  unfoldable pub select_hints : List Numbered → String → List Numbered
  unfolding contains replace_from
  select_hints List.[] query = List.[]
  select_hints (List.◌∷◌ h hs) query =
      let keywords = sorted_keywords h.1 in
      let matched = select_hints hs (replace_all keywords query) in
      let rest = select_hints hs query in
      if some_of (λ k. contains k query) keywords then List.◌∷◌ h matched else rest

  abbrev pub query_of : String → String
  query_of task = take 240 (collapse (lower task))

-- The label of a derived field.
abbrev pub find_text : String → List (String × String) → Option String
find_text key List.[] = none
find_text key (List.◌∷◌ (k, v) d) = let rest = find_text key d in if k == key then some v else rest

abbrev pub find_spec : String → Schema → Option FieldSpec
find_spec key List.[] = none
find_spec key (List.◌∷◌ (k, spec) schema) =
    let rest = find_spec key schema in if k == key then some spec else rest

abbrev pub candidate : String → String → String → Bool → Bool → Json
candidate key label group derived filled = obj (
    field "key" (str key) (
      field "label" (str label) (
        field "group" (str group)
          (field "derived" (bool derived) (field "filled" (bool filled) end)))))

module _ (p : Platform) where
  -- `bool(derived_fields(fields).get(key, "").strip())`
  unfoldable pub is_derived_filled : Fields → String → Bool
  unfolding derived_fields
  is_derived_filled fields key =
      not (strip (elim (find_text key (derived_fields p fields)) [ none ↦ "" | some v ↦ v ]) == "")

module _ (p : Platform) (store : Fields) (schema : Schema) where
  abbrev pub derived_candidate : String → String → Result (Option Json)
  derived_candidate key label = do
    fields ← field_values store
    ok (some (candidate key label "derived" true (is_derived_filled p fields key)))

  abbrev pub schema_candidate : String → Option FieldSpec → Result (Option Json)
  schema_candidate key none = ok none
  schema_candidate key (some spec) = do
    fields ← field_values store
    ok (some (candidate key spec.label spec.group false (is_filled p fields key)))

  abbrev pub candidate_of : String → Result (Option Json)
  candidate_of key = elim (find_text key derived_labels) [
    | some label ↦ derived_candidate key label
    | none ↦ schema_candidate key (find_spec key schema)
  ]

  abbrev pub add_candidate : Option Json → List Json → List Json
  add_candidate none js = js
  add_candidate (some j) js = List.◌∷◌ j js

  -- The loop over the keys of one hint; a key that was seen before is left out.
  unfoldable pub candidates : List String → List String → Result (List Json)
  unfolding is_derived_filled
  candidates seen List.[] = ok List.[]
  candidates seen (List.◌∷◌ key keys) = if is_seen seen key then candidates seen keys else (do
    found ← candidate_of key
    rest ← candidates (List.◌∷◌ key seen) keys
    ok (add_candidate found rest))

  abbrev pub hint_entry : TaskHint → List Json → Json
  hint_entry h keys = obj (
      field "hint" (str h.name)
        (field "reason" (str h.reason) (field "candidate_keys" (arr (of_list keys)) end)))

  abbrev pub add_hint : TaskHint → List Json → List Json → List Json
  add_hint h List.[] rest = rest
  add_hint h keys rest = List.◌∷◌ (hint_entry h keys) rest

  -- The keys of a hint count as seen for the next one.
  abbrev pub see : List String → List String → List String
  see List.[] seen = seen
  see (List.◌∷◌ key keys) seen = see keys (List.◌∷◌ key seen)

  unfoldable pub matched_hints : List String → List Numbered → Result (List Json)
  unfolding candidates
  matched_hints seen List.[] = ok List.[]
  matched_hints seen (List.◌∷◌ h hs) = do
    keys ← candidates seen h.1.keys
    rest ← matched_hints (see h.1.keys seen) hs
    ok (add_hint h.1 keys rest)

-- The hints for a query and the hints that it selects, in their order.
unfoldable pub hints_of : Platform → Fields → String → List Numbered → Result Fields
unfolding matched_hints
hints_of p store query selected = do
  schema_name ← schema_entry store
  schema ← get_schema (to_text p schema_name)
  matched ← matched_hints p store schema List.[] selected
  ok (
      field "task" (str (if query == "" then "" else "[redacted]")) (
        field "task_echoed" (bool false) (
          field "raw_values_included" (bool false) (
            field "conservative" (bool true) (
              field "matched_hints" (arr (of_list matched)) (
                field "raw_access_next_step"
                  (str
                    "Request one key at a time with consent only after the user confirms it is needed.")
                  end))))))

-- `sorted(selected_hints)`, whose numbers differ
unfoldable pub selected_hints : (String → String) → String → List Numbered
unfolding specific_first select_hints
selected_hints lower query = sort_by (λ a b. leb a.0 b.0) (select_hints lower specific_first query)

unfoldable pub planning_hints : Platform → (String → String) → Fields → String → Result Fields
unfolding hints_of selected_hints
planning_hints p lower store task =
    hints_of p store (query_of lower task) (selected_hints lower (query_of lower task))

abbrev pub with_hints : Platform → (String → String) → Fields → String → Fields → Result Fields
with_hints p lower store task context = do
  hints ← planning_hints p lower store task
  ok (put "planning_hints" (obj hints) context)

-- `agent_context` with a task; an empty task has no hints
unfoldable pub agent_context_for :
    Platform → (String → String) → Fields → Bool → Option String → String → Result Fields
agent_context_for p lower store include_path path task = do
  context ← agent_context p store include_path path
  if task == "" then ok context else with_hints p lower store task context
