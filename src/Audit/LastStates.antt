-- ===== src/Audit/LastStates.antt =====
-- The states that `audit_summary` of agent_personal_vault/audit.py collects, against the log: an
-- operation has the state that the last of its events names.
use agent_personal_vault.Prelude.{
  String, ◌≡◌, ◌∙◌, refl, sym, ap, subst, inl, inr, Bool, Bool-cases, true, false, Option, none,
  some, List, [], ◌∷◌, ◌==◌, eq_iff, eq_refl, if◌then◌else◌,
}
use agent_personal_vault.Result.{ok, Gives, Gives-at, >>=-Gives, Gives-last, ◌>>=◌}
use agent_personal_vault.Python.Json.{Json, str, arr, obj, Fields, get}
use agent_personal_vault.Platform.{Platform}
use agent_personal_vault.Audit.{is_operation_state}
use agent_personal_vault.Audit.Summary.{
  States, set_state, known_state, is_final, Tally, count_event, count_state, count_round, summarize,
}

-- The state that is collected for an operation.
unfoldable pub state_in : String → States → Option String
state_in id [] = none
state_in id ((j, s) ∷ d) = let rest = state_in id d in if j == id then some s else rest

-- No operation has two entries.
unfoldable pub OnePerOperation : States → Type 0
OnePerOperation [] = Unit
OnePerOperation ((j, s) ∷ d) = (state_in j d ≡ none) × OnePerOperation d

abbrev pub or_option : Option String → Option String → Option String
or_option none o = o
or_option (some s) o = some s

abbrev pub named_state : Option Json → Option String
named_state (some (str s)) = if is_operation_state s then some s else none
named_state _ = none

abbrev pub named_for : String → Option Json → Option Json → Option String
named_for id (some (str j)) state = if j == id then named_state state else none
named_for id _ state = none

-- The last operation state that the events name for the operation, if any does.
unfoldable pub last_named : String → List Fields → Option String
last_named id [] = none
last_named id (d ∷ ds) =
    or_option (last_named id ds) (named_for id (get "operation_id" d) (get "operation_state" d))

same_key : (a b : String) → (a == b) ≡ true → a ≡ b
same_key a b e = (eq_iff a b).0 e

differs_back : (a b : String) → (a == b) ≡ false → (b == a) ≡ false
differs_back a b e = elim (Bool-cases (b == a)) [
  | inl same ↦ let eq = same_key b a same in absurd (cc (eq_refl a, eq, e))
  | inr other ↦ other
]

-- Another entry is left as it was.
pub state_in-set_state :
    (id j s : String) (d : States)
    → state_in id (set_state j s d) ≡ (if j == id then some s else state_in id d)
unfolding state_in set_state
state_in-set_state id j s [] = refl
state_in-set_state id j s ((k, r) ∷ d) = elim (Bool-cases (k == j)) [
  | inl same ↦ rw (same_key k j same, eq_refl j) (shadowed (j == id))
  | inr other ↦ rw other (elim (Bool-cases (k == id)) [
    | inl here ↦
        rw (here, differs_back id j (ap (λ x. x == j) (sym (same_key k id here)) ∙ other)) refl
    | inr there ↦ rw there (state_in-set_state id j s d)
  ])
]
  where
    shadowed :
        (b : Bool)
        → (if b then some s else state_in id d)
          ≡ (if b then some s else (if b then some r else state_in id d))
    shadowed true = refl
    shadowed false = refl

pub set_state-OnePerOperation :
    (j s : String) (d : States) → OnePerOperation d → OnePerOperation (set_state j s d)
unfolding OnePerOperation set_state state_in
set_state-OnePerOperation j s [] one = (refl, tt)
set_state-OnePerOperation j s ((k, r) ∷ d) one = elim (Bool-cases (k == j)) [
  | inl same ↦ rw same one
  | inr other ↦ rw other (
    state_in-set_state k j s d ∙ rw (differs_back k j other) one.0,
    set_state-OnePerOperation j s d one.1,
  )
]

-- What a round at an event adds to what is collected.
abbrev pub Noted : (String → Option String) → States → States → Type 0
Noted named before after =
    ((id : String) → state_in id after ≡ or_option (named id) (state_in id before))
    × (OnePerOperation before → OnePerOperation after)

none-Noted : (states : States) → Noted (λ id. none) states states
none-Noted states = (λ id. refl, λ one. one)

module _ (p : Platform) (d : Fields) where
  states-final :
      (final : Bool) (t : Tally)
      → (if final then count_event p d t else t).operation_states ≡ t.operation_states
  states-final true t = refl
  states-final false t = refl

  count_state-Noted :
      (j s : String) (known : Bool) (t : Tally)
      → Noted
          (λ id. if j == id then (if known then some s else none) else none)
          t.operation_states
          (count_state p j (if known then some s else none) d t).operation_states
  count_state-Noted j s true t =
      subst (Noted (λ id. if j == id then some s else none) t.operation_states)
        (sym (
          states-final (is_final s)
            (record t { operation_states = set_state j s t.operation_states })))
        (
          λ id. state_in-set_state id j s t.operation_states ∙ chosen (j == id) _,
          set_state-OnePerOperation j s t.operation_states,
        )
    where
      chosen :
          (b : Bool) (o : Option String)
          → (if b then some s else o) ≡ or_option (if b then some s else none) o
      chosen true o = refl
      chosen false o = refl
  count_state-Noted j s false t = (λ id. unchosen (j == id) _, λ one. one)
    where
      unchosen : (b : Bool) (o : Option String) → o ≡ or_option (if b then none else none) o
      unchosen true o = refl
      unchosen false o = refl

  known_state-Noted :
      (v : Option Json) (j : String) (t : Tally)
      → Gives
          (λ t'. Noted (λ id. named_for id (some (str j)) v) t.operation_states t'.operation_states)
          (known_state v >>= λ state. ok (count_state p j state d t))
  unfolding ◌>>=◌
  known_state-Noted (some (str s)) j t = record {
    post = count_state-Noted j s (is_operation_state s) t;
  }
  known_state-Noted (some (arr js)) j t = record { post = tt }
  known_state-Noted (some (obj o)) j t = record { post = tt }
  known_state-Noted _ j t = record { post = count_state-Noted j "" false t }

  count_round-Noted :
      (o : Option Json) (t : Tally)
      → Gives
          (λ t'.
            Noted
              (λ id. named_for id o (get "operation_state" d))
              t.operation_states
              t'.operation_states)
          (count_round p o d t)
  count_round-Noted (some (str j)) t = known_state-Noted (get "operation_state" d) j t
  count_round-Noted _ t = record { post = none-Noted t.operation_states }

module _ (p : Platform) where
  pub summarize-Noted :
      (ds : List Fields) (t : Tally)
      → Gives
          (λ t'. Noted (λ id. last_named id ds) t.operation_states t'.operation_states)
          (summarize p ds t)
  unfolding summarize last_named
  summarize-Noted [] t = record { post = none-Noted t.operation_states }
  summarize-Noted (d ∷ ds) t = >>=-Gives _ _ λ t1 e.
      let (first, one) = Gives-at (count_round-Noted p d (get "operation_id" d) t) e in
      Gives-last (summarize p ds t1) λ t2 e2.
        let (rest, two) = Gives-at (summarize-Noted ds t1) e2 in
        (
          λ id.
              rest id
              ∙ ap (or_option (last_named id ds)) (first id)
              ∙ or_assoc (last_named id ds) _ _,
          λ before. two (one before),
        )
    where
      or_assoc : (a b c : Option String) → or_option a (or_option b c) ≡ or_option (or_option a b) c
      or_assoc none b c = refl
      or_assoc (some s) b c = refl
