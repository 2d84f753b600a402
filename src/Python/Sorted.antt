-- ===== src/Python/Sorted.antt =====
-- `json.loads(json.dumps(d, sort_keys=True))`: the same value, with the keys of each dict in order.
use Prim.Native.String.{compare}
use Prim.Native.Nat.{Ordering}
use text.Mathlib.Text.{is_eq, is_lt}
use agent_personal_vault.Prelude.{
  String, ◌≡◌, refl, Bool, true, false, Option, none, some, ◌==◌, eq_iff, arith, if◌then◌else◌,
}
use agent_personal_vault.Python.Json.{
  Json, null, arr, obj, Items, nil, cons, Fields, end, field, get,
}

-- `s < t` on texts, by code points
abbrev pub precedes : String → String → Bool
precedes s t = is_lt (compare s t)

unfoldable pub insert : String → Json → Fields → Fields
insert k v end = field k v end
insert k v (field j w d) =
    let rest = insert k v d in if precedes j k then field j w rest else field k v (field j w d)

unfoldable mutual
  pub sorted : Json → Json
  sorted (arr js) = arr (sorted_items js)
  sorted (obj d) = obj (sorted_fields d)
  sorted null = null
  sorted v = v

  pub sorted_items : Items → Items
  sorted_items nil = nil
  sorted_items (cons j js) = cons (sorted j) (sorted_items js)

  pub sorted_fields : Fields → Fields
  sorted_fields end = end
  sorted_fields (field k v d) = insert k (sorted v) (sorted_fields d)

-- An order that is less is not equal.
lt-eq : (o : Ordering) → is_lt o ≡ true → is_eq o ≡ false
lt-eq Ordering.lt h = refl
lt-eq Ordering.eq h = cc
lt-eq Ordering.gt h = refl

precedes-ne : (s t : String) → precedes s t ≡ true → (s == t) ≡ false
precedes-ne s t h = lt-eq (compare s t) h

get-insert :
    (k j : String) (v : Json) (d : Fields)
    → get j (insert k v d) ≡ (if k == j then some v else get j d)
unfolding get insert
get-insert k j v end = refl
get-insert k j v (field i w d) =
    ground (arith, eq_iff k j, eq_iff i j, eq_iff i k, precedes-ne i k, get-insert k j v d)

abbrev pub map_sorted : Option Json → Option Json
map_sorted none = none
map_sorted (some v) = some (sorted v)

-- An entry of the sorted dict is the sorted entry.
pub get-sorted_fields : (k : String) (d : Fields) → get k (sorted_fields d) ≡ map_sorted (get k d)
unfolding get sorted
get-sorted_fields k end = refl
get-sorted_fields k (field j v d) =
    rw (get-insert j k (sorted v) (sorted_fields d), get-sorted_fields k d) (ground arith)
