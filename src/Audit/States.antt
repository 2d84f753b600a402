-- ===== src/Audit/States.antt =====
-- The states of operations that `audit_summary` collects: each is counted once.
use agent_personal_vault.Prelude.{
  ℕ, suc, ◌+◌, String, ◌≡◌, refl, subst, sym, inl, inr, Bool, Bool-cases, true, false, ◌||◌, [],
  ◌∷◌, All, ◌==◌, eq_iff, arith, length, if◌then◌else◌,
}
use agent_personal_vault.Audit.{is_operation_state}
use agent_personal_vault.Audit.Summary.{States, set_state, count_states, is_incomplete}

-- The state of every operation is one of the five.
abbrev pub Known : States → Type 0
Known = All (λ entry. is_operation_state entry.1 ≡ true)

pub set_state-Known :
    (id s : String) (d : States) → is_operation_state s ≡ true → Known d → Known (set_state id s d)
unfolding set_state
set_state-Known id s [] h k = (h, tt)
set_state-Known id s ((j, r) ∷ d) h k = elim (Bool-cases (j == id)) [
  | inl e ↦ rw (e) (h, k.1)
  | inr e ↦ rw (e) (k.0, set_state-Known id s d h k.1)
]

-- What holds of the five states holds of every operation state.
by_state :
    (P : String → Type 0) (s : String)
    → is_operation_state s ≡ true
    → P "prepared"
    → P "committed"
    → P "delivered"
    → P "rejected"
    → P "outcome_unknown"
    → P s
by_state P s h prepared committed delivered rejected outcome_unknown =
    step "prepared" prepared λ n1. step "committed" committed λ n2. step "delivered" delivered λ n3.
      step "rejected" rejected λ n4.
        step "outcome_unknown" outcome_unknown λ n5. absurd (none_left _ _ _ _ _ h n1 n2 n3 n4 n5)
  where
    step : (t : String) → P t → ((s == t) ≡ false → P s) → P s
    step t k other = elim (Bool-cases (s == t)) [
      | inl e ↦ subst P (sym ((eq_iff s t).0 e)) k
      | inr e ↦ other e
    ]

    none_left :
        (a b c d e : Bool)
        → (a || b || c || d || e) ≡ true
        → a ≡ false
        → b ≡ false
        → c ≡ false
        → d ≡ false
        → e ≡ false
        → ⊥
    none_left a b c d e any na nb nc nd ne = ground arith

-- An entry counts once.
CountedOnce : String → Type 0
CountedOnce s =
    (delivered rejected unknown incomplete n : ℕ)
    → delivered + rejected + (unknown + incomplete) ≡ n
    → (if s == "delivered" then suc delivered else delivered)
        + (if s == "rejected" then suc rejected else rejected)
        + ((if s == "outcome_unknown" then suc unknown else unknown)
            + (if is_incomplete s then suc incomplete else incomplete))
      ≡ suc n

count-CountedOnce : (s : String) → is_operation_state s ≡ true → CountedOnce s
unfolding CountedOnce
count-CountedOnce s h =
    by_state CountedOnce s h (λ a b c d n e. omega arith) (λ a b c d n e. omega arith)
      (λ a b c d n e. omega arith) (λ a b c d n e. omega arith) (λ a b c d n e. omega arith)

pub count_states-partition :
    (d : States)
    → Known d
    → count_states (λ s. s == "delivered") d
        + count_states (λ s. s == "rejected") d
        + (count_states (λ s. s == "outcome_unknown") d + count_states is_incomplete d)
      ≡ length d
unfolding count_states CountedOnce
count_states-partition [] k = refl
count_states-partition ((id, s) ∷ d) k =
    count-CountedOnce s k.0 _ _ _ _ _ (count_states-partition d k.1)
