-- ===== src/Python/Json.antt =====
-- The values that `json.loads` returns, with the dictionary operations that the source calls on
-- them.
use agent_personal_vault.Prelude.{
  ℕ, zero, String, ◌≡◌, refl, ap, Bool, true, false, not, Option, none, some, List, [], ◌∷◌, arith,
  ◌==◌, eq_iff, if◌then◌else◌,
}

-- An int; `negsuc n` is -(n + 1).
pub data ℤ : Type 0 where
  pos : ℕ → ℤ
  negsuc : ℕ → ℤ

-- A float is kept as the text that `repr` gives of it. A dict keeps its insertion order.
mutual
  pub data Json : Type 0 where
    null : Json
    bool : Bool → Json
    int : ℤ → Json
    float : String → Json
    str : String → Json
    arr : Items → Json
    obj : Fields → Json

  pub data Items : Type 0 where
    nil : Items
    cons : Json → Items → Items

  pub data Fields : Type 0 where
    end : Fields
    field : String → Json → Fields → Fields

abbrev pub to_list : Items → List Json
to_list nil = []
to_list (cons j js) = j ∷ to_list js

abbrev pub of_list : List Json → Items
of_list [] = nil
of_list (j ∷ js) = cons j (of_list js)

pub to_list-of_list : (js : List Json) → to_list (of_list js) ≡ js
to_list-of_list [] = refl
to_list-of_list (j ∷ js) = ap (λ t. j ∷ t) (to_list-of_list js)

-- `d.get(k)`, where `none` is a missing key
unfoldable pub get : String → Fields → Option Json
get k end = none
get k (field j v d) = if j == k then some v else get k d

-- `d[k] = v`
unfoldable pub put : String → Json → Fields → Fields
put k v end = field k v end
put k v (field j w d) = if j == k then field k v d else field j w (put k v d)

-- `{key: value for key, value in d.items() if key != k}`
unfoldable pub remove : String → Fields → Fields
remove k end = end
remove k (field j v d) = if j == k then remove k d else field j v (remove k d)

-- `k in d`
abbrev pub has : String → Fields → Bool
has k d = elim (get k d) [ none ↦ false | some _ ↦ true ]

-- `d.get(k)` with the default `None`
abbrev pub get_or_null : String → Fields → Json
get_or_null k d = elim (get k d) [ none ↦ null | some v ↦ v ]

-- `d.setdefault(k, v)`
abbrev pub set_default : String → Json → Fields → Fields
set_default k v d = if has k d then d else put k v d

-- `bool(v)`; the only falsy float that JSON text has is a zero, which is spelled in many ways
abbrev pub truthy : (String → Bool) → Json → Bool
truthy zero_float null = false
truthy zero_float (bool b) = b
truthy zero_float (int (pos zero)) = false
truthy zero_float (int _) = true
truthy zero_float (float t) = not (zero_float t)
truthy zero_float (str s) = not (s == "")
truthy zero_float (arr nil) = false
truthy zero_float (arr (cons _ _)) = true
truthy zero_float (obj end) = false
truthy zero_float (obj (field _ _ _)) = true

-- `isinstance(v, str)`
abbrev pub as_str : Json → Option String
as_str (str s) = some s
as_str _ = none

-- `isinstance(v, list)`
abbrev pub as_list : Json → Option (List Json)
as_list (arr js) = some (to_list js)
as_list _ = none

-- `isinstance(v, dict)`
abbrev pub as_dict : Json → Option Fields
as_dict (obj d) = some d
as_dict _ = none

pub get-put :
    (k j : String) (v : Json) (d : Fields)
    → get j (put k v d) ≡ (if k == j then some v else get j d)
unfolding get put
get-put k j v end = refl
get-put k j v (field i w d) = ground (arith, eq_iff k j, eq_iff i k, eq_iff i j, get-put k j v d)

pub get-remove :
    (k j : String) (d : Fields) → get j (remove k d) ≡ (if k == j then none else get j d)
unfolding get remove
get-remove k j end = ground arith
get-remove k j (field i w d) = ground (arith, eq_iff k j, eq_iff i k, eq_iff i j, get-remove k j d)

pub ruleset dict_laws = (get-put, get-remove)
