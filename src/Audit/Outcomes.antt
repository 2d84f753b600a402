-- ===== src/Audit/Outcomes.antt =====
-- What `audit_summary` counts.
use agent_personal_vault.Prelude.{
  ℕ, suc, ◌+◌, ◌≤◌, String, ◌≡◌, ◌∙◌, refl, ◌==◌, Bool, true, false, not, ◌&&◌, Option, none, some,
  List, [], ◌∷◌, arith, length, if◌then◌else◌,
}
use agent_personal_vault.Result.{ok, Gives, Gives-at, >>=-Gives, Gives-last, ◌>>=◌}
use agent_personal_vault.Python.Json.{pos, Json, str, arr, obj, Fields, get}
use agent_personal_vault.Platform.{Platform, text_field}
use agent_personal_vault.Host.{Host}
use agent_personal_vault.Audit.{is_operation_state}
use agent_personal_vault.Audit.Log.{Loaded, Tail, audit_tail}
use agent_personal_vault.Audit.Summary.{
  Counts, bump, States, set_state, known_state, is_final, Tally, count_event, count_state,
  count_round, summarize, count_states, is_incomplete, Summary, empty_tally, summary_of,
  audit_summary,
}
use agent_personal_vault.Audit.LastStates.{
  state_in, OnePerOperation, or_option, last_named, summarize-Noted,
}
use agent_personal_vault.Audit.States.{Known, set_state-Known, count_states-partition}

-- The sum of the counts.
unfoldable pub total : Counts → ℕ
total [] = 0
total ((k, n) ∷ d) = n + total d

total-bump : (k : String) (d : Counts) → total (bump k d) ≡ suc (total d)
unfolding total bump
total-bump k [] = refl
total-bump k ((j, n) ∷ d) = ground (arith, total-bump k d)

-- An event of an operation that has not ended: it is not counted by its action.
abbrev is_interim_state : Option Json → Bool
is_interim_state (some (str s)) = is_operation_state s && not (is_final s)
is_interim_state _ = false

abbrev is_interim_of : Option Json → Option Json → Bool
is_interim_of (some (str id)) state = is_interim_state state
is_interim_of _ state = false

abbrev pub is_interim : Fields → Bool
is_interim d = is_interim_of (get "operation_id" d) (get "operation_state" d)

unfoldable pub count_interim : List Fields → ℕ
count_interim [] = 0
count_interim (d ∷ ds) = let rest = count_interim ds in if is_interim d then suc rest else rest

-- What one round keeps: the states are known, and the event is counted by its action, unless it is of
-- an operation that has not ended.
abbrev Round : Bool → Tally → Tally → Type 0
Round interim t t' =
    Known t'.operation_states
    × (total t'.by_action + (if interim then 1 else 0) ≡ suc (total t.by_action))

module _ (p : Platform) (d : Fields) where
  count_event-Round : (t : Tally) → Known t.operation_states → Round false t (count_event p d t)
  count_event-Round t k = (k, omega (arith, total-bump (text_field p "action" d) t.by_action))

  is_final-Round :
      (final : Bool) (t : Tally)
      → Known t.operation_states
      → Round (not final) t (if final then count_event p d t else t)
  is_final-Round true t k = count_event-Round t k
  is_final-Round false t k = (k, omega arith)

  count_state-Round :
      (id s : String) (known : Bool) (t : Tally)
      → is_operation_state s ≡ known
      → Known t.operation_states
      → Round (known && not (is_final s)) t (count_state p id (if known then some s else none) d t)
  count_state-Round id s true t e k =
      is_final-Round (is_final s)
        (record t { operation_states = set_state id s t.operation_states })
        (set_state-Known id s t.operation_states e k)
  count_state-Round id s false t e k = count_event-Round t k

  known_state-Round :
      (v : Option Json) (id : String) (t : Tally)
      → Known t.operation_states
      → Gives
          (λ t'. Round (is_interim_state v) t t')
          (known_state v >>= λ state. ok (count_state p id state d t))
  unfolding ◌>>=◌
  known_state-Round (some (str s)) id t k = record {
    post = count_state-Round id s (is_operation_state s) t refl k;
  }
  known_state-Round (some (arr js)) id t k = record { post = tt }
  known_state-Round (some (obj o)) id t k = record { post = tt }
  known_state-Round _ id t k = record { post = count_event-Round t k }

  count_round-Round :
      (id : Option Json) (t : Tally)
      → Known t.operation_states
      → Gives (λ t'. Round (is_interim_of id (get "operation_state" d)) t t') (count_round p id d t)
  count_round-Round (some (str id)) t k = known_state-Round (get "operation_state" d) id t k
  count_round-Round _ t k = record { post = count_event-Round t k }

module _ (p : Platform) where
  -- What the loop keeps.
  abbrev Counting : List Fields → Tally → Tally → Type 0
  Counting ds t t' =
      Known t'.operation_states
      × (total t'.by_action + count_interim ds ≡ total t.by_action + length ds)

  summarize-Counting :
      (ds : List Fields) (t : Tally)
      → Known t.operation_states
      → Gives (Counting ds t) (summarize p ds t)
  unfolding summarize count_interim
  summarize-Counting [] t k = record { post = (k, refl) }
  summarize-Counting (d ∷ ds) t k = >>=-Gives _ _ λ t1 e.
      let (known, round) = Gives-at (count_round-Round p d (get "operation_id" d) t k) e in
      Gives-last (summarize p ds t1) λ t2 e2.
        let (known2, rest) = Gives-at (summarize-Counting ds t1 known) e2 in
        (known2, add_round (is_interim d) (total t.by_action) _ _ _ _ round rest)
    where
      add_round :
          (interim : Bool) (before one after pending events : ℕ)
          → one + (if interim then 1 else 0) ≡ suc before
          → after + pending ≡ one + events
          → after + (if interim then suc pending else pending) ≡ before + suc events
      add_round true before one after pending events h k = omega arith
      add_round false before one after pending events h k = omega arith

or_none : (o : Option String) → or_option o none ≡ o
or_none none = refl
or_none (some s) = refl

from_zero : (a b : ℕ) → a ≡ total [] + b → a ≡ b
unfolding total
from_zero a b e = omega arith

module _ {W : Type 0} (p : Platform) (loads : String → Loaded) (h : Host W) where
  -- How the numbers of a summary add up.
  pub record Balanced (events : List Fields) (s : Summary) : Type 0 where
    pub states : States
    pub operations : s.delivered + s.rejected + s.outcome_unknown ≡ length states
    pub actions : total s.by_action + count_interim events ≡ s.events
    pub incomplete : s.incomplete_operations ≤ s.outcome_unknown
    pub delivered : s.delivered ≡ count_states (λ v. v == "delivered") states
    pub rejected : s.rejected ≡ count_states (λ v. v == "rejected") states
    pub incomplete_states : s.incomplete_operations ≡ count_states is_incomplete states
    pub last_states : (id : String) → state_in id states ≡ last_named id events
    pub one_each : OnePerOperation states

  -- If a summary is returned, it is over the events that `audit_tail` shows without a limit; each
  -- operation that one of them names a state of has the state that the last of those names, and is
  -- counted once by it, as delivered, rejected or unknown, where the incomplete are among the unknown;
  -- and the counts by action add up to the events, less those that say of an operation only that it is
  -- prepared or committed.
  pub audit_summary-Balanced :
      (w : W) (s : Summary)
      → audit_summary p loads h w ≡ ok s
      → (r : Tail) × (audit_tail p loads h (pos 0) w ≡ ok r) × Balanced r.shown s
  unfolding audit_summary summary_of state_in OnePerOperation
  audit_summary-Balanced w s e = Gives-at steps e
    where
      steps :
          Gives
            (λ s. (r : Tail) × (audit_tail p loads h (pos 0) w ≡ ok r) × Balanced r.shown s)
            (audit_summary p loads h w)
      steps = >>=-Gives _ _ λ r er. >>=-Gives _ _ λ t et.
          let (known, counted) = Gives-at (summarize-Counting p r.shown empty_tally tt) et in
          let (noted, one) = Gives-at (summarize-Noted p r.shown empty_tally) et in
          record {
            post = (
              r,
              er,
              record {
                states = t.operation_states;
                operations = count_states-partition t.operation_states known;
                actions = from_zero _ _ counted;
                incomplete = omega arith;
                delivered = refl;
                rejected = refl;
                incomplete_states = refl;
                last_states = λ id. noted id ∙ or_none (last_named id r.shown);
                one_each = one tt;
              },
            );
          }
