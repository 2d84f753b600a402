-- ===== src/Limits/Equivalence.antt =====
-- The worklist of `validate_json_resources` against a recursive reading of the limits.
use agent_personal_vault.Prelude.{
  ℕ, zero, suc, ◌+◌, ◌-◌, ◌≤◌, ◌<◌, String, ◌≡◌, ◌∙◌, refl, sym, inl, inr, Bool, Bool-cases, true,
  false, not, ◌&&◌, [], ◌∷◌, arith, ltb, leb,
}
use mathlib.Core.Logic.{◌↔◌}
use mathlib.Core.Path.{ap₂}
use agent_personal_vault.Result.{Result, ok, err, ◌>>=◌, ◌>>◌}
use agent_personal_vault.Python.Text.{utf8_size}
use agent_personal_vault.Python.Json.{
  Json, null, str, arr, obj, Items, nil, cons, Fields, end, field,
}
use agent_personal_vault.Limits.{
  Stack, extend, extend_items, expand, drain, validate_json_resources, require_text_limit,
  max_json_depth, max_json_nodes, max_json_string_bytes,
}

-- The number of values in a value, itself included.
unfoldable mutual
  pub nodes : Json → ℕ
  nodes (arr js) = suc (nodes_items js)
  nodes (obj d) = suc (nodes_fields d)
  nodes null = 1
  nodes _ = 1

  pub nodes_items : Items → ℕ
  nodes_items nil = 0
  nodes_items (cons j js) = nodes j + nodes_items js

  pub nodes_fields : Fields → ℕ
  nodes_fields end = 0
  nodes_fields (field k j d) = nodes j + nodes_fields d

abbrev pub text_fits : String → Bool
text_fits s = leb (utf8_size s) max_json_string_bytes

-- No value in it lies deeper than the limit, if it lies at `depth`, and no text or key is too long.
unfoldable mutual
  pub fits : Json → ℕ → Bool
  fits (str s) depth = leb depth max_json_depth && text_fits s
  fits (arr js) depth = leb depth max_json_depth && fits_items js (depth + 1)
  fits (obj d) depth = leb depth max_json_depth && fits_fields d (depth + 1)
  fits _ depth = leb depth max_json_depth

  pub fits_items : Items → ℕ → Bool
  fits_items nil depth = true
  fits_items (cons j js) depth = fits j depth && fits_items js depth

  pub fits_fields : Fields → ℕ → Bool
  fits_fields end depth = true
  fits_fields (field k j d) depth = text_fits k && (fits j depth && fits_fields d depth)

abbrev weight : Stack → ℕ
weight [] = 0
weight ((j, _) ∷ st) = nodes j + weight st

abbrev fits_stack : Stack → Bool
fits_stack [] = true
fits_stack ((j, depth) ∷ st) = fits j depth && fits_stack st

-- What a round leaves on the stack, for a value whose parts have `n` nodes and fit if `b`.
abbrev Pushes : ℕ → Bool → Stack → Result Stack → Type 0
Pushes n b st (ok rest) = (weight rest ≡ n + weight st) × (fits_stack rest ≡ (b && fits_stack st))
Pushes n b st (err _) = b ≡ false

&&_swap : (a b c : Bool) → (a && (b && c)) ≡ ((b && a) && c)
&&_swap a b c = ground arith

extend-Pushes :
    (js : Items) (depth : ℕ) (st : Stack)
    → Pushes (nodes_items js) (fits_items js (depth + 1)) st (ok (extend js depth st))
unfolding nodes fits
extend-Pushes nil depth st = (omega arith, refl)
extend-Pushes (cons j js) depth st =
    let ih = extend-Pushes js depth ((j, depth + 1) ∷ st) in
    (
      omega (arith, ih.0),
      ih.1 ∙ &&_swap (fits_items js (depth + 1)) (fits j (depth + 1)) (fits_stack st),
    )

-- One entry more above what the rest of the object pushes.
Pushes-entry :
    (j : Json) (depth : ℕ) (st : Stack) (n : ℕ) (b : Bool) (r : Result Stack)
    → Pushes n b ((j, depth) ∷ st) r
    → Pushes (nodes j + n) (fits j depth && b) st r
Pushes-entry j depth st n b (ok rest) h =
    (omega (arith, h.0), h.1 ∙ &&_swap b (fits j depth) (fits_stack st))
Pushes-entry j depth st n b (err e) h = rw h (&&_false _)
  where
    &&_false : (a : Bool) → (a && false) ≡ false
    &&_false a = ground arith

text_fits_lem : (s : String) → text_fits s ≡ not (ltb max_json_string_bytes (utf8_size s))
text_fits_lem s = ground arith

-- A text that is too long raises; any other goes on with `r`.
Pushes-text :
    (s label : String) (st : Stack) (n : ℕ) (b : Bool) (r : Result Stack)
    → Pushes n b st r
    → Pushes n (text_fits s && b) st (require_text_limit s max_json_string_bytes label >> r)
unfolding require_text_limit ◌>>=◌
Pushes-text s label st n b r h = elim (Bool-cases (ltb max_json_string_bytes (utf8_size s))) [
  | inl over ↦ rw (text_fits_lem s, over) refl
  | inr within ↦ rw (text_fits_lem s, within) h
]

extend_items-Pushes :
    (d : Fields) (depth : ℕ) (st : Stack)
    → Pushes (nodes_fields d) (fits_fields d (depth + 1)) st (extend_items d depth st)
unfolding nodes fits
extend_items-Pushes end depth st = (omega arith, refl)
extend_items-Pushes (field k j d) depth st =
    Pushes-text k "JSON object key" st _ _ (extend_items d depth ((j, depth + 1) ∷ st)) (
      Pushes-entry j (depth + 1) st _ _ (extend_items d depth ((j, depth + 1) ∷ st))
        (extend_items-Pushes d depth ((j, depth + 1) ∷ st)))

-- Apart from the depth of the value itself, which the round has tested already.
abbrev inside : Json → ℕ → Bool
inside (str s) depth = text_fits s
inside (arr js) depth = fits_items js (depth + 1)
inside (obj d) depth = fits_fields d (depth + 1)
inside _ depth = true

fits-inside : (j : Json) (depth : ℕ) → fits j depth ≡ (leb depth max_json_depth && inside j depth)
unfolding fits
fits-inside (str s) depth = refl
fits-inside (arr js) depth = refl
fits-inside (obj d) depth = refl
fits-inside _ depth = ground arith

suc-sub_one : (n : ℕ) → suc n - 1 ≡ n
suc-sub_one n = omega arith

expand-Pushes :
    (j : Json) (depth : ℕ) (st : Stack)
    → Pushes (nodes j - 1) (inside j depth) st (expand j depth st)
unfolding nodes require_text_limit
expand-Pushes (str s) depth st =
    rw (← &&_true (text_fits s)) (Pushes-text s "JSON string" st 0 true (ok st) (omega arith, refl))
  where
    &&_true : (a : Bool) → (a && true) ≡ a
    &&_true a = ground arith
expand-Pushes (arr js) depth st = rw (suc-sub_one (nodes_items js)) (extend-Pushes js depth st)
expand-Pushes (obj d) depth st = rw (suc-sub_one (nodes_fields d)) (extend_items-Pushes d depth st)
expand-Pushes _ depth st = (omega arith, refl)

nodes-pos : (j : Json) → 0 < nodes j
unfolding nodes
nodes-pos (arr js) = omega arith
nodes-pos _ = omega arith

abbrev passes : {A : Type 0} → Result A → Bool
passes (ok _) = true
passes (err _) = false

-- A round and the rounds behind it, whose claim is `rec`.
drain_round :
    (r n : ℕ) (b : Bool) (st : Stack) (pushed : Result Stack)
    → Pushes n b st pushed
    → ((rest : Stack) → passes (drain r rest) ≡ (leb (weight rest) r && fits_stack rest))
    → passes (elim pushed [ ok rest ↦ drain r rest | err e ↦ err e ])
      ≡ (leb (n + weight st) r && (b && fits_stack st))
drain_round r n b st (ok rest) h rec = rec rest ∙ ap₂ (λ w f. leb w r && f) h.0 h.1
drain_round r n b st (err e) h rec = rw h (ground arith)

round_shape :
    (n w r depth : ℕ) (b f : Bool)
    → 0 < n
    → ltb max_json_depth depth ≡ false
    → (leb ((n - 1) + w) r && (b && f))
      ≡ (leb (n + w) (suc r) && ((leb depth max_json_depth && b) && f))
round_shape n w r depth b f h shallow = ground arith

drain-passes : (r : ℕ) (st : Stack) → passes (drain r st) ≡ (leb (weight st) r && fits_stack st)
unfolding drain
drain-passes zero [] = ground arith
drain-passes (suc r) [] = ground arith
drain-passes zero ((j, depth) ∷ st) = ground (arith, nodes-pos j)
drain-passes (suc r) ((j, depth) ∷ st) = elim (Bool-cases (ltb max_json_depth depth)) [
  | inl deep ↦ rw (deep, fits-inside) (ground arith)
  | inr shallow ↦
      rw (shallow, fits-inside)
        (drain_round r (nodes j - 1) (inside j depth) st (expand j depth st)
            (expand-Pushes j depth st) (drain-passes r)
          ∙ round_shape (nodes j) (weight st) r depth (inside j depth) (fits_stack st) (nodes-pos j)
              shallow)
]

passes_iff : (r : Result (Unit {0})) → (r ≡ ok tt) ↔ (passes r ≡ true)
passes_iff (ok u) = (λ _. refl, λ _. refl)
passes_iff (err e) = (λ h. cc, λ h. cc)

-- A value is accepted exactly when it has at most `max_json_nodes` values in it, none of them lies
-- deeper than `max_json_depth`, and no text or key in it is too long.
pub validate_json_resources_iff :
    (j : Json)
    → (validate_json_resources j ≡ ok tt) ↔ ((nodes j ≤ max_json_nodes) × (fits j 1 ≡ true))
unfolding validate_json_resources
validate_json_resources_iff j = (
  λ h.
      let p : (leb (nodes j + 0) max_json_nodes && (fits j 1 && true)) ≡ true =
        sym (drain-passes max_json_nodes ((j, 1) ∷ [])) ∙ (passes_iff _).0 h in
      (ground arith, ground arith),
  λ h. (passes_iff _).1 (drain-passes max_json_nodes ((j, 1) ∷ []) ∙ ground arith),
)
