-- ===== src/Audit/Pruning.antt =====
-- What `prune_audit_events` keeps of a log.
use Prim.Native.String.{[], ◌∷◌}
use agent_personal_vault.Prelude.{
  Char, ℕ, ◌+◌, ◌<◌, ◌≤◌, nat_eq, code, String, ◌≡◌, refl, sym, ap, ◌∙◌, inl, inr, Bool, Bool-cases,
  true, false, Option, none, some, List, length, arith, ltb, ltb→lt, ltb→ge, ◌≢◌, if◌then◌else◌,
}
use agent_personal_vault.Result.{Gives, Gives-at, >>=-Gives}
use agent_personal_vault.Python.Json.{obj, Fields, get}
use agent_personal_vault.Platform.{Platform}
use agent_personal_vault.Audit.Log.{
  Loaded, loaded, malformed, raised, glue, split_lines, starts_with, strip_bytes,
}
use agent_personal_vault.Audit.Sweep.{
  Verdict, unreadable, old, kept, Swept, add_verdict, concat, timestamp_of, kept_line,
  event_verdict, verdict, sweep, is_caught,
}

concat-glue : (c : Char) (ls : List String) → concat (glue c ls) ≡ c ∷ concat ls
unfolding concat
concat-glue c List.[] = refl
concat-glue c (List.◌∷◌ l ls) = refl

concat-next_line :
    (newline return glued : Bool) (c : Char) (ls : List String)
    → concat (
        if newline
        then List.◌∷◌ (c ∷ []) ls
        else if return
        then (if glued then glue c ls else List.◌∷◌ (c ∷ []) ls)
        else glue c ls)
      ≡ c ∷ concat ls
unfolding concat
concat-next_line true return glued c ls = refl
concat-next_line false true true c ls = concat-glue c ls
concat-next_line false true false c ls = refl
concat-next_line false false glued c ls = concat-glue c ls

-- The lines of a text, put together, are the text.
pub concat-split_lines : (s : String) → concat (split_lines s) ≡ s
unfolding concat split_lines
concat-split_lines [] = refl
concat-split_lines (c ∷ s) =
    concat-next_line (nat_eq (code c) 10) (nat_eq (code c) 13) (starts_with 10 s) c (split_lines s)
    ∙ ap (λ t. c ∷ t) (concat-split_lines s)

-- A line is an event with a time in a timezone.
pub record IsEvent (p : Platform) (loads : String → Loaded) (line : String) (d : Fields) (t : ℕ)
    : Type 0 where
  pub reads : loads (strip_bytes line) ≡ loaded (obj d)
  pub time : timestamp_of p (get "timestamp" d) ≡ some t

-- What stands in the log for lines of it: an event before the cutoff is dropped, an event from it on is
-- kept as its kept line, and any line may be kept as it is.
pub data Selected (p : Platform) (loads : String → Loaded) (cutoff : ℕ)
    : List String → List String → Type 0 where
  none_left : Selected p loads cutoff List.[] List.[]
  dropped :
      {l : String} {ls ns : List String} {d : Fields} {t : ℕ}
      → IsEvent p loads l d t
      → t < cutoff
      → Selected p loads cutoff ls ns
      → Selected p loads cutoff (List.◌∷◌ l ls) ns
  event_kept :
      {l : String} {ls ns : List String} {d : Fields} {t : ℕ}
      → IsEvent p loads l d t
      → cutoff ≤ t
      → Selected p loads cutoff ls ns
      → Selected p loads cutoff (List.◌∷◌ l ls) (List.◌∷◌ (kept_line p l d) ns)
  line_kept :
      {l : String} {ls ns : List String}
      → ((d : Fields) (t : ℕ) → ¬ (IsEvent p loads l d t))
      → Selected p loads cutoff ls ns
      → Selected p loads cutoff (List.◌∷◌ l ls) (List.◌∷◌ l ns)

module _ (p : Platform) (loads : String → Loaded) (cutoff : ℕ) where
  -- What a verdict says of a line.
  abbrev Judged : String → Verdict → Type 0
  Judged l unreadable = (d : Fields) (t : ℕ) → ¬ (IsEvent p loads l d t)
  Judged l old = (d : Fields) × (t : ℕ) × IsEvent p loads l d t × (t < cutoff)
  Judged l (kept k) =
      (d : Fields) × (t : ℕ) × IsEvent p loads l d t × (cutoff ≤ t) × (k ≡ kept_line p l d)

  -- What cannot be read as an object with a time is no event.
  untimed :
      (l : String) (d : Fields)
      → loads (strip_bytes l) ≡ loaded (obj d)
      → timestamp_of p (get "timestamp" d) ≡ none
      → Judged l unreadable
  untimed l d e none_there d' t event = unlike (
      sym none_there
      ∙ (ap (λ x. timestamp_of p (get "timestamp" x)) (same (sym e ∙ event.reads)) ∙ event.time))
    where
      same : loaded (obj d) ≡ loaded (obj d') → d ≡ d'
      same h = cc

      unlike : ¬ (◌≡◌ {A = Option ℕ} none (some t))
      unlike h = cc

  event-Judged :
      (l : String) (d : Fields) (time : Option ℕ)
      → loads (strip_bytes l) ≡ loaded (obj d)
      → timestamp_of p (get "timestamp" d) ≡ time
      → Judged l (event_verdict p cutoff l d time)
  event-Judged l d none e h = untimed l d e h
  event-Judged l d (some t) e h = elim (Bool-cases (ltb t cutoff)) [
    | inl before ↦ rw (before) (d, t, record { reads = e; time = h }, ltb→lt t cutoff before)
    | inr after ↦ rw (after) (d, t, record { reads = e; time = h }, ltb→ge t cutoff after, refl)
  ]

  unread :
      (l : String) (x : Loaded)
      → loads (strip_bytes l) ≡ x
      → ((d : Fields) → x ≢ loaded (obj d))
      → Judged l unreadable
  unread l x e other d t event = other d (sym e ∙ event.reads)

  verdict-Judged :
      (l : String) (x : Loaded)
      → loads (strip_bytes l) ≡ x
      → Gives (Judged l) (verdict p cutoff l x)
  verdict-Judged l (loaded (obj d)) e = record {
    post = event-Judged l d (timestamp_of p (get "timestamp" d)) e refl;
  }
  verdict-Judged l (loaded j) e = record { post = unread l (loaded j) e λ d h. cc }
  verdict-Judged l malformed e = record { post = unread l malformed e λ d h. cc }
  verdict-Judged l (raised x) e = elim (Bool-cases (is_caught x)) [
    | inl caught ↦ rw (caught) (record { post = unread l (raised x) e λ d h. cc })
    | inr other ↦ rw (other) (record { post = tt })
  ]

  -- The lines and the counts of the loop.
  abbrev SweptFrom : List String → Swept → Type 0
  SweptFrom ls s = Selected p loads cutoff ls s.lines × (s.removed + length s.lines ≡ length ls)

  add_verdict-Swept :
      (l : String) (ls : List String) (v : Verdict) (s : Swept)
      → Judged l v
      → SweptFrom ls s
      → SweptFrom (List.◌∷◌ l ls) (add_verdict l v s)
  add_verdict-Swept l ls unreadable s h (k, n) = (line_kept h k, omega arith)
  add_verdict-Swept l ls old s (d, t, event, before) (k, n) = (dropped event before k, omega arith)
  add_verdict-Swept l ls (kept x) s (d, t, event, after, e) (k, n) =
      (rw (e) (event_kept event after k), omega arith)

  pub sweep-Swept : (ls : List String) → Gives (SweptFrom ls) (sweep p loads cutoff ls)
  unfolding sweep
  sweep-Swept List.[] = record { post = (none_left, refl) }
  sweep-Swept (List.◌∷◌ l ls) = >>=-Gives _ _ λ v ev. >>=-Gives _ _ λ s es. record {
    post =
        add_verdict-Swept l ls v s (Gives-at (verdict-Judged l (loads (strip_bytes l)) refl) ev)
          (Gives-at (sweep-Swept ls) es);
  }
