-- ===== src/Tests/Notation.antt =====
-- A text for each JSON value, and the machine that reads it back: it stands for `json.dumps` and
-- `json.loads` in the tests.
use Prim.Native.String.{[], ◌∷◌}
use agent_personal_vault.Prelude.{
  ℕ, zero, suc, Char, code, String, ◌≡◌, refl, ◌∙◌, Bool, true, false, Option, none, some, List,
  nat_eq, if◌then◌else◌,
}
use agent_personal_vault.Python.Json.{
  pos, negsuc, Json, null, bool, int, float, str, arr, obj, Items, nil, cons, Fields, end, field,
}

data Held : Type 0 where
  number : ℕ → Held
  text : String → Held
  json : Json → Held
  items : Items → Held
  fields : Fields → Held

abbrev Stack : Type 0
Stack = List Held

abbrev increment : Stack → Stack
increment (List.◌∷◌ (number n) st) = List.◌∷◌ (number (suc n)) st
increment st = st

abbrev as_pos : Stack → Stack
as_pos (List.◌∷◌ (number n) st) = List.◌∷◌ (json (int (pos n))) st
as_pos st = st

abbrev as_negsuc : Stack → Stack
as_negsuc (List.◌∷◌ (number n) st) = List.◌∷◌ (json (int (negsuc n))) st
as_negsuc st = st

abbrev prepend : Char → Stack → Stack
prepend c (List.◌∷◌ (text t) st) = List.◌∷◌ (text (c ∷ t)) st
prepend c st = st

abbrev as_str : Stack → Stack
as_str (List.◌∷◌ (text t) st) = List.◌∷◌ (json (str t)) st
as_str st = st

abbrev as_float : Stack → Stack
as_float (List.◌∷◌ (text t) st) = List.◌∷◌ (json (float t)) st
as_float st = st

abbrev add_item : Stack → Stack
add_item (List.◌∷◌ (json j) (List.◌∷◌ (items js) st)) = List.◌∷◌ (items (cons j js)) st
add_item st = st

abbrev as_arr : Stack → Stack
as_arr (List.◌∷◌ (items js) st) = List.◌∷◌ (json (arr js)) st
as_arr st = st

abbrev add_field : Stack → Stack
add_field (List.◌∷◌ (json v) (List.◌∷◌ (text k) (List.◌∷◌ (fields d) st))) =
    List.◌∷◌ (fields (field k v d)) st
add_field st = st

abbrev as_obj : Stack → Stack
as_obj (List.◌∷◌ (fields d) st) = List.◌∷◌ (json (obj d)) st
as_obj st = st

abbrev act : ℕ → Stack → Stack
act n st =
    if nat_eq n b'n'
    then List.◌∷◌ (json null) st
    else if nat_eq n b't'
    then List.◌∷◌ (json (bool true)) st
    else if nat_eq n b'f'
    then List.◌∷◌ (json (bool false)) st
    else if nat_eq n b'z'
    then List.◌∷◌ (number 0) st
    else if nat_eq n b's'
    then increment st
    else if nat_eq n b'+'
    then as_pos st
    else if nat_eq n b'-'
    then as_negsuc st
    else if nat_eq n b'q'
    then List.◌∷◌ (text []) st
    else if nat_eq n b'u'
    then as_str st
    else if nat_eq n b'x'
    then as_float st
    else if nat_eq n b'['
    then List.◌∷◌ (items nil) st
    else if nat_eq n b','
    then add_item st
    else if nat_eq n b']'
    then as_arr st
    else if nat_eq n b'{'
    then List.◌∷◌ (fields end) st
    else if nat_eq n b':'
    then add_field st
    else if nat_eq n b'}'
    then as_obj st
    else st

abbrev last : Stack → Option Json
last (List.◌∷◌ (json j) List.[]) = some j
last _ = none

-- After `c` the next character is taken as it is.
abbrev run : String → Bool → Stack → Option Json
run [] quoted st = last st
run (c ∷ s) true st = run s false (prepend c st)
run (c ∷ s) false st = run s (nat_eq (code c) b'c') (act (code c) st)

-- The texts, before a rest.
abbrev print_number : ℕ → String → String
print_number zero rest = "z" ∷ rest
print_number (suc n) rest = print_number n ("s" ∷ rest)

abbrev print_text : String → String → String
print_text [] rest = "q" ∷ rest
print_text (c ∷ s) rest = print_text s ("c" ∷ c ∷ rest)

unfoldable mutual
  print : Json → String → String
  print null rest = "n" ∷ rest
  print (bool true) rest = "t" ∷ rest
  print (bool false) rest = "f" ∷ rest
  print (int (pos n)) rest = print_number n ("+" ∷ rest)
  print (int (negsuc n)) rest = print_number n ("-" ∷ rest)
  print (float t) rest = print_text t ("x" ∷ rest)
  print (str t) rest = print_text t ("u" ∷ rest)
  print (arr js) rest = print_items js ("]" ∷ rest)
  print (obj d) rest = print_fields d ("}" ∷ rest)

  print_items : Items → String → String
  print_items nil rest = "[" ∷ rest
  print_items (cons j js) rest = print_items js (print j ("," ∷ rest))

  print_fields : Fields → String → String
  print_fields end rest = "{" ∷ rest
  print_fields (field k v d) rest = print_fields d (print_text k (print v (":" ∷ rest)))

run-number :
    (n : ℕ) (rest : String) (st : Stack)
    → run (print_number n rest) false st ≡ run rest false (List.◌∷◌ (number n) st)
run-number zero rest st = refl
run-number (suc n) rest st = run-number n ("s" ∷ rest) st

run-text :
    (t rest : String) (st : Stack)
    → run (print_text t rest) false st ≡ run rest false (List.◌∷◌ (text t) st)
run-text [] rest st = refl
run-text (c ∷ t) rest st = run-text t ("c" ∷ c ∷ rest) st

mutual
  unfolding print

  run-print :
      (j : Json) (rest : String) (st : Stack)
      → run (print j rest) false st ≡ run rest false (List.◌∷◌ (json j) st)
  run-print null rest st = refl
  run-print (bool true) rest st = refl
  run-print (bool false) rest st = refl
  run-print (int (pos n)) rest st = run-number n ("+" ∷ rest) st
  run-print (int (negsuc n)) rest st = run-number n ("-" ∷ rest) st
  run-print (float t) rest st = run-text t ("x" ∷ rest) st
  run-print (str t) rest st = run-text t ("u" ∷ rest) st
  run-print (arr js) rest st = run-items js ("]" ∷ rest) st
  run-print (obj d) rest st = run-fields d ("}" ∷ rest) st

  run-items :
      (js : Items) (rest : String) (st : Stack)
      → run (print_items js rest) false st ≡ run rest false (List.◌∷◌ (items js) st)
  run-items nil rest st = refl
  run-items (cons j js) rest st =
      run-items js (print j ("," ∷ rest)) st ∙ run-print j ("," ∷ rest) (List.◌∷◌ (items js) st)

  run-fields :
      (d : Fields) (rest : String) (st : Stack)
      → run (print_fields d rest) false st ≡ run rest false (List.◌∷◌ (fields d) st)
  run-fields end rest st = refl
  run-fields (field k v d) rest st =
      run-fields d (print_text k (print v (":" ∷ rest))) st
      ∙ (run-text k (print v (":" ∷ rest)) (List.◌∷◌ (fields d) st)
          ∙ run-print v (":" ∷ rest) (List.◌∷◌ (text k) (List.◌∷◌ (fields d) st)))

unfoldable pub dumps_text : Json → String
unfolding print
dumps_text j = print j []

pub loads_text : String → Option Json
loads_text s = run s false List.[]

pub loads-dumps_text : (j : Json) → loads_text (dumps_text j) ≡ some j
unfolding dumps_text loads_text
loads-dumps_text j = run-print j [] List.[]

-- A text that is not JSON.
pub loads-one_line : loads_text "one line" ≡ none
unfolding loads_text
loads-one_line = refl
