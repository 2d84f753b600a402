-- ===== src/Python/Words.antt =====
-- `str.split()`, `" ".join` and `str.strip()`.
pub mod Blank
use agent_personal_vault.Prelude.{Char, String, List, [], ◌∷◌, if◌then◌else◌}
use agent_personal_vault.Python.Text.{◌^^◌, is_space}

-- A word that ends here, if it has a character.
abbrev pub push_word : String → List String → List String
push_word String.[] ws = ws
push_word (String.◌∷◌ c w) ws = String.◌∷◌ c w ∷ ws

-- The word that the text begins with, and the words behind it.
abbrev pub add_char : Char → String × List String → String × List String
add_char c (w, ws) = if is_space c then (String.[], push_word w ws) else (String.◌∷◌ c w, ws)

pub split_from : String → String × List String
split_from String.[] = (String.[], [])
split_from (String.◌∷◌ c s) = add_char c (split_from s)

-- `s.split()`
unfoldable pub split : String → List String
unfolding split_from
split s = let (w, ws) = split_from s in push_word w ws

-- `" ".join(words)`
unfoldable pub join : List String → String
join [] = ""
join (w ∷ []) = w
join (w ∷ v ∷ ws) = w ^^ " " ^^ join (v ∷ ws)

-- `" ".join(s.split())`
unfoldable pub collapse : String → String
unfolding split join
collapse s = join (split s)

-- `s.lstrip()`
pub lstrip : String → String
lstrip String.[] = String.[]
lstrip (String.◌∷◌ c s) = let rest = lstrip s in if is_space c then rest else String.◌∷◌ c s

abbrev pub keep_last : Char → String → String
keep_last c String.[] = if is_space c then String.[] else String.◌∷◌ c String.[]
keep_last c (String.◌∷◌ d s) = String.◌∷◌ c (String.◌∷◌ d s)

-- `s.rstrip()`
pub rstrip : String → String
rstrip String.[] = String.[]
rstrip (String.◌∷◌ c s) = keep_last c (rstrip s)

-- `s.strip()`
unfoldable pub strip : String → String
unfolding lstrip rstrip
strip s = rstrip (lstrip s)
