-- ===== src/Vault/PlanningSecrecy.antt =====
-- Planning hints depend on which fields are filled, and not on their values.
use agent_personal_vault.Prelude.{
  String, ◌≡◌, refl, sym, ap, ◌∙◌, Bool, true, false, not, ◌&&◌, Option, none, some, List, [], ◌∷◌,
  ◌==◌, eq_iff, if◌then◌else◌,
}
use mathlib.Core.Path.{ap₂}
use agent_personal_vault.Result.{◌>>=◌}
use agent_personal_vault.Python.Text.{◌^^◌}
use agent_personal_vault.Python.Words.{strip}
use agent_personal_vault.Python.Words.Blank.{
  is_blank, strip-is_blank, is_blank-strip, is_blank-append,
}
use agent_personal_vault.Python.Json.{Fields, get}
use agent_personal_vault.Platform.{Platform, to_text}
use agent_personal_vault.Schemas.{Schema, FieldSpec, derived_labels}
use agent_personal_vault.Vault.Context.{
  shown_value, is_filled, join_part, derived_fields, schema_entry,
}
use agent_personal_vault.Vault.Planning.{
  Numbered, find_text, is_derived_filled, candidate_of, candidates, see, matched_hints,
  planning_hints, hints_of, query_of, selected_hints, agent_context_for, derived_candidate,
  schema_candidate, find_spec,
}
use agent_personal_vault.Vault.Secrecy.{FilledAlike, after_schema, agent_context_hides_values}

is_blank-join_part : (a b : String) → is_blank (join_part a b) ≡ (is_blank a && is_blank b)
is_blank-join_part a b = joined (a == "") (b == "") refl refl
  where
    and_true : (x : Bool) → x ≡ (x && true)
    and_true true = refl
    and_true false = refl

    joined :
        (x y : Bool)
        → (a == "") ≡ x
        → (b == "") ≡ y
        → is_blank (if x then b else if y then a else a ^^ "\u{3000}" ^^ b)
          ≡ (is_blank a && is_blank b)
    joined true y e f = rw ((eq_iff a "").0 e) refl
    joined false true e f = rw ((eq_iff b "").0 f) (and_true (is_blank a))
    joined false false e f = is_blank-append a ("\u{3000}" ^^ b)

-- A joined text is blank exactly if both parts are.
strip-join_part :
    (a b : String)
    → (strip (join_part (strip a) (strip b)) == "") ≡ ((strip a == "") && (strip b == ""))
strip-join_part a b =
    strip-is_blank (join_part (strip a) (strip b))
    ∙ (is_blank-join_part (strip a) (strip b)
        ∙ ap₂ (λ x y. x && y) (is_blank-strip a ∙ sym (strip-is_blank a))
            (is_blank-strip b ∙ sym (strip-is_blank b)))

-- the value of a field, as text
abbrev value_text : Platform → Fields → String → String
value_text p fields key = elim (get key fields) [ none ↦ "" | some v ↦ to_text p v ]

not_inj : (a b : Bool) → not a ≡ not b → a ≡ b
not_inj true true e = refl
not_inj false false e = refl
not_inj true false e = absurd (cc)
not_inj false true e = absurd (cc)

module _ (p : Platform) (fields fields' : Fields)
    (alike : (key : String) → is_filled p fields' key ≡ is_filled p fields key) where
  shown_value-alike :
      (key : String) → (shown_value p fields' key == "") ≡ (shown_value p fields key == "")
  unfolding is_filled
  shown_value-alike key = not_inj _ _ (alike key)

  join_part-alike :
      (k j : String)
      → (strip (join_part (shown_value p fields' k) (shown_value p fields' j)) == "")
        ≡ (strip (join_part (shown_value p fields k) (shown_value p fields j)) == "")
  join_part-alike k j =
      strip-join_part (value_text p fields' k) (value_text p fields' j)
      ∙ (ap₂ (λ x y. x && y) (shown_value-alike k) (shown_value-alike j)
          ∙ sym (strip-join_part (value_text p fields k) (value_text p fields j)))

  is_derived_filled-alike :
      (key : String) → is_derived_filled p fields' key ≡ is_derived_filled p fields key
  unfolding is_derived_filled derived_fields
  is_derived_filled-alike key = ap not (by_key ("FULL_NAME" == key) ("FULL_NAME_KANA" == key) _)
    where
      text : Option String → String
      text o = elim o [ none ↦ "" | some v ↦ v ]

      by_key :
          (x y : Bool) (rest : Option String)
          → (strip (
                text (
                  if x
                  then some (
                      join_part
                        (shown_value p fields' "FAMILY_NAME")
                        (shown_value p fields' "GIVEN_NAME"))
                  else if y
                  then some (
                      join_part
                        (shown_value p fields' "FAMILY_NAME_KANA")
                        (shown_value p fields' "GIVEN_NAME_KANA"))
                  else rest))
              == "")
            ≡ (strip (
                  text (
                    if x
                    then some (
                        join_part
                          (shown_value p fields "FAMILY_NAME")
                          (shown_value p fields "GIVEN_NAME"))
                    else if y
                    then some (
                        join_part
                          (shown_value p fields "FAMILY_NAME_KANA")
                          (shown_value p fields "GIVEN_NAME_KANA"))
                    else rest))
                == "")
      by_key true y rest = join_part-alike "FAMILY_NAME" "GIVEN_NAME"
      by_key false true rest = join_part-alike "FAMILY_NAME_KANA" "GIVEN_NAME_KANA"
      by_key false false rest = refl

module _ (p : Platform) (store store' : Fields) (f : FilledAlike p store store')
    (schema : Schema) where
  candidate_of-alike :
      (key : String) → candidate_of p store' schema key ≡ candidate_of p store schema key
  unfolding ◌>>=◌
  candidate_of-alike key = by_label (find_text key derived_labels)
    where
      by_spec :
          (o : Option FieldSpec)
          → schema_candidate p store' schema key o ≡ schema_candidate p store schema key o
      by_spec none = refl
      by_spec (some spec) = rw (f.has_fields, f.has_fields', f.alike key) refl

      by_label :
          (o : Option String)
          → (elim o [
            | some label ↦ derived_candidate p store' schema key label
            | none ↦ schema_candidate p store' schema key (find_spec key schema)
          ])
            ≡ (elim o [
              | some label ↦ derived_candidate p store schema key label
              | none ↦ schema_candidate p store schema key (find_spec key schema)
            ])
      by_label none = by_spec (find_spec key schema)
      by_label (some label) =
          rw (f.has_fields, f.has_fields', is_derived_filled-alike p f.fields f.fields' f.alike key)
            refl

  candidates-alike :
      (seen keys : List String)
      → candidates p store' schema seen keys ≡ candidates p store schema seen keys
  unfolding candidates
  candidates-alike seen [] = refl
  candidates-alike seen (key ∷ keys) =
      rw (candidate_of-alike key, candidates-alike seen keys, candidates-alike (key ∷ seen) keys)
        refl

  matched_hints-alike :
      (seen : List String) (hs : List Numbered)
      → matched_hints p store' schema seen hs ≡ matched_hints p store schema seen hs
  unfolding matched_hints
  matched_hints-alike seen [] = refl
  matched_hints-alike seen (h ∷ hs) =
      rw (candidates-alike seen h.1.keys, matched_hints-alike (see p store schema h.1.keys seen) hs)
        refl

hints_of-alike :
    (p : Platform) (store store' : Fields) (query : String) (selected : List Numbered)
    → FilledAlike p store store'
    → hints_of p store' query selected ≡ hints_of p store query selected
unfolding hints_of
hints_of-alike p store store' query selected f = rw (f.same_schema) (
    after_schema (schema_entry store) _ _ (to_text p)
      λ v schema. rw (matched_hints-alike p store store' f schema [] selected) refl)

planning_hints-alike :
    (p : Platform) (lower : String → String) (store store' : Fields) (task : String)
    → FilledAlike p store store'
    → planning_hints p lower store' task ≡ planning_hints p lower store task
unfolding planning_hints
planning_hints-alike p lower store store' task f =
    hints_of-alike p store store' (query_of lower task) (selected_hints lower (query_of lower task))
      f

-- Stores with the same schema entry whose fields are filled alike have the same agent context for a task,
-- its planning hints included, error or value, whatever the values are.
pub agent_context_for_hides_values :
    (p : Platform) (lower : String → String) (store store' : Fields) (include_path : Bool)
    (path : Option String) (task : String)
    → FilledAlike p store store'
    → agent_context_for p lower store' include_path path task
      ≡ agent_context_for p lower store include_path path task
unfolding agent_context_for
agent_context_for_hides_values p lower store store' include_path path task f =
    rw
      (
        agent_context_hides_values p store store' include_path path f,
        planning_hints-alike p lower store store' task f,
      )
      refl
