-- ===== src/Audit/Log.antt =====
-- The reading of the audit log in agent_personal_vault/audit.py: `_read_audit_records`, `audit_tail`
-- and `read_audit_events`. The bytes of the log stand as the text that they encode.
use Prim.Native.String.{[], ◌∷◌}
use agent_personal_vault.Prelude.{
  ℕ, zero, suc, ◌-◌, Char, code, String, Bool, false, ◌||◌, List, ◌==◌, ltb, nat_eq, length,
  if◌then◌else◌,
}
use agent_personal_vault.Result.{Error, Result, ok, err, ◌>>=◌}
use agent_personal_vault.Python.Text.{within}
use agent_personal_vault.Python.Json.{ℤ, pos, negsuc, Json, str, obj, Fields, get_or_null, has, put}
use agent_personal_vault.Platform.{Platform}
use agent_personal_vault.Host.{Host}
use agent_personal_vault.Audit.{redact_value, existing_log}

-- How `json.loads(line.decode("utf-8"))` ends: with a value, with `UnicodeDecodeError` or
-- `JSONDecodeError`, or with another exception.
pub data Loaded : Type 0 where
  loaded : Json → Loaded
  malformed : Loaded
  raised : Error → Loaded

abbrev pub glue : Char → List String → List String
glue c List.[] = List.◌∷◌ (c ∷ []) List.[]
glue c (List.◌∷◌ l ls) = List.◌∷◌ (c ∷ l) ls

abbrev pub starts_with : ℕ → String → Bool
starts_with n [] = false
starts_with n (c ∷ s) = nat_eq (code c) n

-- `s.splitlines(keepends=True)` of bytes
unfoldable pub split_lines : String → List String
split_lines [] = List.[]
split_lines (c ∷ s) =
    let rest = split_lines s in
    if nat_eq (code c) 10
    then List.◌∷◌ (c ∷ []) rest
    else if nat_eq (code c) 13
    then (if starts_with 10 s then glue c rest else List.◌∷◌ (c ∷ []) rest)
    else glue c rest

-- `s.strip()` of bytes
abbrev pub is_byte_space : Char → Bool
is_byte_space c = within 9 13 (code c) || nat_eq (code c) 32

unfoldable pub lstrip_bytes : String → String
lstrip_bytes [] = []
lstrip_bytes (c ∷ s) = let rest = lstrip_bytes s in if is_byte_space c then rest else c ∷ s

abbrev pub keep_byte : Char → String → String
keep_byte c [] = if is_byte_space c then [] else c ∷ []
keep_byte c (d ∷ s) = c ∷ d ∷ s

unfoldable pub rstrip_bytes : String → String
rstrip_bytes [] = []
rstrip_bytes (c ∷ s) = keep_byte c (rstrip_bytes s)

unfoldable pub strip_bytes : String → String
unfolding lstrip_bytes rstrip_bytes
strip_bytes s = rstrip_bytes (lstrip_bytes s)

-- What a line is for a reader.
pub data Entry : Type 0 where
  blank : Entry
  skipped : Entry
  event : Fields → Entry

pub record Records : Type 0 where
  pub events : List Fields
  pub malformed_records : ℕ

abbrev pub add_entry : Entry → Records → Records
add_entry blank r = r
add_entry skipped r = record r { malformed_records = suc r.malformed_records }
add_entry (event d) r = record r { events = List.◌∷◌ d r.events }

-- `events if limit <= 0 else events[-limit:]`
abbrev pub drop : {A : Type 0} → ℕ → List A → List A
drop zero xs = xs
drop (suc n) List.[] = List.[]
drop (suc n) (List.◌∷◌ x xs) = drop n xs

abbrev pub select : ℤ → List Fields → List Fields
select (pos zero) events = events
select (pos n) events = drop (length events - n) events
select (negsuc n) events = events

pub record Tail : Type 0 where
  pub shown : List Fields
  pub malformed_records_skipped : ℕ
  pub integrity_warning : Bool

module _ (p : Platform) where
  -- `if "purpose" in payload: payload["purpose"] = redact_purpose(payload.get("purpose"))`
  abbrev pub redact_event : Fields → Fields
  redact_event d =
      if has "purpose" d
      then put "purpose" (str (redact_value p (get_or_null "purpose" d))) d
      else d

  abbrev pub loaded_entry : Loaded → Result Entry
  loaded_entry (loaded (obj d)) = ok (event (redact_event d))
  loaded_entry (loaded _) = ok skipped
  loaded_entry malformed = ok skipped
  loaded_entry (raised e) = err e

module _ (p : Platform) (loads : String → Loaded) where
  -- One round of the loop; a line is stripped of its end too.
  unfoldable pub read_line : String → Result Entry
  unfolding strip_bytes
  read_line raw_line =
      let line = strip_bytes raw_line in
      if line == "" then ok blank else loaded_entry p (loads line)

  unfoldable pub read_lines : List String → Result Records
  unfolding read_line
  read_lines List.[] = ok (record { events = List.[]; malformed_records = 0 })
  read_lines (List.◌∷◌ l ls) = do
    entry ← read_line l
    rest ← read_lines ls
    ok (add_entry entry rest)

module _ {W : Type 0} (p : Platform) (loads : String → Loaded) (h : Host W) where
  -- `_read_audit_records`, which reads no event if there is no log
  unfoldable pub read_audit_records : W → Result Records
  unfolding existing_log split_lines read_lines
  read_audit_records w = do text ← existing_log p h w; read_lines p loads (split_lines text)

  unfoldable pub audit_tail : ℤ → W → Result Tail
  unfolding read_audit_records
  audit_tail limit w = do
    records ← read_audit_records w
    ok (record {
      shown = select limit records.events;
      malformed_records_skipped = records.malformed_records;
      integrity_warning = ltb 0 records.malformed_records;
    })

  unfoldable pub read_audit_events : ℤ → W → Result (List Fields)
  unfolding audit_tail
  read_audit_events limit w = do result ← audit_tail limit w; ok result.shown
