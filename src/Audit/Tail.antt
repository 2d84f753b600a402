-- ===== src/Audit/Tail.antt =====
-- What `audit_tail` shows of a log.
use agent_personal_vault.Prelude.{
  ℕ, zero, suc, ◌-◌, String, ◌≡◌, refl, inl, inr, Bool-cases, if◌then◌else◌, true, false, Option,
  none, some, List, [], ◌∷◌, All, length, ◌==◌,
}
use agent_personal_vault.Result.{ok, Gives, Gives-at, >>=-Gives}
use agent_personal_vault.Python.Json.{
  ℤ, pos, negsuc, Json, null, str, obj, Fields, get, put, get-put,
}
use agent_personal_vault.Platform.{Platform}
use agent_personal_vault.Host.{Host}
use agent_personal_vault.Audit.{redact_value}
use agent_personal_vault.Audit.Display.{IsDisplayed, redact_value-IsDisplayed}
use agent_personal_vault.Audit.Log.{
  Loaded, loaded, malformed, raised, Entry, blank, skipped, event, Records, add_entry, drop, select,
  Tail, strip_bytes, split_lines, redact_event, loaded_entry, read_line, read_lines,
  read_audit_records, audit_tail,
}

-- An event that shows no purpose in clear.
abbrev pub IsShown : Fields → Type 0
IsShown d = IsDisplayed (get "purpose" d)

IsShown-put :
    (p : Platform) (d : Fields) (v : Option Json)
    → get "purpose" d ≡ v
    → IsShown (
        if (elim v [ none ↦ false | some _ ↦ true ])
        then put "purpose" (str (redact_value p (elim v [ none ↦ null | some x ↦ x ]))) d
        else d)
IsShown-put p d none e = rw e tt
IsShown-put p d (some v) e =
    rw (get-put "purpose" "purpose" (str (redact_value p v)) d) (redact_value-IsDisplayed p v)

redact_event-IsShown : (p : Platform) (d : Fields) → IsShown (redact_event p d)
redact_event-IsShown p d = IsShown-put p d (get "purpose" d) refl

-- An entry, if it is an event, shows no purpose in clear.
abbrev EntryShown : Entry → Type 0
EntryShown (event d) = IsShown d
EntryShown _ = Unit

loaded_entry-EntryShown : (p : Platform) (l : Loaded) → Gives EntryShown (loaded_entry p l)
loaded_entry-EntryShown p (loaded (obj d)) = record { post = redact_event-IsShown p d }
loaded_entry-EntryShown p (loaded _) = record { post = tt }
loaded_entry-EntryShown p malformed = record { post = tt }
loaded_entry-EntryShown p (raised e) = record { post = tt }

add_entry-IsShown :
    (x : Entry) (r : Records)
    → EntryShown x
    → All IsShown r.events
    → All IsShown (add_entry x r).events
add_entry-IsShown blank r h k = k
add_entry-IsShown skipped r h k = k
add_entry-IsShown (event d) r h k = (h, k)

module _ (p : Platform) (loads : String → Loaded) where
  read_line-EntryShown : (l : String) → Gives EntryShown (read_line p loads l)
  unfolding read_line
  read_line-EntryShown l = elim (Bool-cases (strip_bytes l == "")) [
    | inl e ↦ rw (e) (record { post = tt })
    | inr e ↦ rw (e) (loaded_entry-EntryShown p (loads (strip_bytes l)))
  ]

  read_lines-IsShown :
      (ls : List String) → Gives (λ r. All IsShown r.events) (read_lines p loads ls)
  unfolding read_lines
  read_lines-IsShown [] = record { post = tt }
  read_lines-IsShown (l ∷ ls) = >>=-Gives _ _ λ x ex. >>=-Gives _ _ λ r er. record {
    post =
        add_entry-IsShown x r (Gives-at (read_line-EntryShown l) ex)
          (Gives-at (read_lines-IsShown ls) er);
  }

drop-IsShown : (n : ℕ) (ds : List Fields) → All IsShown ds → All IsShown (drop n ds)
drop-IsShown zero ds h = h
drop-IsShown (suc n) [] h = tt
drop-IsShown (suc n) (d ∷ ds) h = drop-IsShown n ds h.1

select-IsShown : (limit : ℤ) (ds : List Fields) → All IsShown ds → All IsShown (select limit ds)
select-IsShown (pos zero) ds h = h
select-IsShown (pos (suc n)) ds h = drop-IsShown (length ds - suc n) ds h
select-IsShown (negsuc n) ds h = h

module _ {W : Type 0} (p : Platform) (loads : String → Loaded) (h : Host W) where
  audit_tail-Gives :
      (limit : ℤ) (w : W) → Gives (λ t. All IsShown t.shown) (audit_tail p loads h limit w)
  unfolding audit_tail read_audit_records
  audit_tail-Gives limit w =
      >>=-Gives _ _
        λ r er. record { post = select-IsShown limit r.events (Gives-at records_shown er) }
    where
      records_shown : Gives (λ r. All IsShown r.events) (read_audit_records p loads h w)
      records_shown = >>=-Gives _ _ λ text e. read_lines-IsShown p loads (split_lines text)

  -- Every event that `audit_tail` returns, whatever the log holds, has no purpose, or one of the display
  -- codes: the empty text, `[redacted]`, or one of the six purpose codes.
  pub audit_tail-IsShown :
      (limit : ℤ) (w : W) (t : Tail) → audit_tail p loads h limit w ≡ ok t → All IsShown t.shown
  audit_tail-IsShown limit w t e = Gives-at (audit_tail-Gives limit w) e
