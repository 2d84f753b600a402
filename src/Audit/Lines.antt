-- ===== src/Audit/Lines.antt =====
-- The audit log as lines: `write_audit_event` of agent_personal_vault/audit.py against the
-- `splitlines` of its readers.
use Prim.Native.String.{[], ◌∷◌}
use agent_personal_vault.Prelude.{
  ◌≡◌, ◌∙◌, refl, sym, ap, Char, code, String, Bool, true, false, not, &&-eq_true, List, ◌++◌,
  nat_eq, if◌then◌else◌,
}
use agent_personal_vault.Result.{ok, ok_inj}
use agent_personal_vault.Python.Text.{◌^^◌, all_chars}
use agent_personal_vault.Python.Json.{Fields}
use agent_personal_vault.Platform.{Platform, PlatformLaws, is_inline}
use agent_personal_vault.Host.{Host, HostLaws}
use agent_personal_vault.Audit.{EventArgs, existing_log, write_audit_event}
use agent_personal_vault.Audit.Append.{write_audit_event-Appended}
use agent_personal_vault.Audit.Log.{glue, starts_with, split_lines}

-- Whether a log is a sequence of whole lines: it is empty, or ends in a newline.
unfoldable pub ends_line : String → Bool
ends_line [] = true
ends_line (c ∷ []) = nat_eq (code c) 10
ends_line (c ∷ d ∷ s) = ends_line (d ∷ s)

-- A text without a line break, and its newline.
split_lines-line :
    (s : String)
    → all_chars is_inline s ≡ true
    → split_lines (s ^^ "\n") ≡ List.◌∷◌ (s ^^ "\n") List.[]
unfolding split_lines
split_lines-line [] h = refl
split_lines-line (c ∷ s) h =
    let (inline, rest) = &&-eq_true (is_inline c) _ h in
    let (no_feed, no_return) =
      &&-eq_true (not (nat_eq (code c) 10)) (not (nat_eq (code c) 13)) inline in
    rw (not_true (nat_eq (code c) 10) no_feed, not_true (nat_eq (code c) 13) no_return)
      (ap (glue c) (split_lines-line s rest))
  where
    not_true : (b : Bool) → not b ≡ true → b ≡ false
    not_true true e = absurd (cc)
    not_true false e = refl

ends_line-line : (s : String) → ends_line (s ^^ "\n") ≡ true
unfolding ends_line
ends_line-line [] = refl
ends_line-line (c ∷ []) = refl
ends_line-line (c ∷ d ∷ s) = ends_line-line (d ∷ s)

ends_line-cons :
    (c : Char) (t : String) → ends_line (t ^^ "\n") ≡ true → ends_line (c ∷ (t ^^ "\n")) ≡ true
unfolding ends_line
ends_line-cons c [] h = h
ends_line-cons c (d ∷ t) h = h

ends_line-append :
    (s t : String) → ends_line (t ^^ "\n") ≡ true → ends_line (s ^^ (t ^^ "\n")) ≡ true
unfolding ends_line
ends_line-append [] t h = h
ends_line-append (c ∷ []) t h = ends_line-cons c t h
ends_line-append (c ∷ d ∷ s) t h = ends_line-append (d ∷ s) t h

-- One character in front of the lines of a text; `feed` says whether the text starts with a line feed.
abbrev in_front : Char → Bool → List String → List String
in_front c feed rest =
    if nat_eq (code c) 10
    then List.◌∷◌ (c ∷ []) rest
    else if nat_eq (code c) 13
    then (if feed then glue c rest else List.◌∷◌ (c ∷ []) rest)
    else glue c rest

abbrev IsCons : List String → Type 0
IsCons List.[] = ⊥
IsCons (List.◌∷◌ l ls) = Unit

glue-IsCons : (c : Char) (ls : List String) → IsCons (glue c ls)
glue-IsCons c List.[] = tt
glue-IsCons c (List.◌∷◌ l ls) = tt

in_front-IsCons : (c : Char) (feed : Bool) (ls : List String) → IsCons (in_front c feed ls)
in_front-IsCons c feed ls = split (nat_eq (code c) 10) (nat_eq (code c) 13) feed
  where
    split :
        (a b f : Bool)
        → IsCons (
            if a
            then List.◌∷◌ (c ∷ []) ls
            else if b
            then (if f then glue c ls else List.◌∷◌ (c ∷ []) ls)
            else glue c ls)
    split true b f = tt
    split false true true = glue-IsCons c ls
    split false true false = tt
    split false false f = glue-IsCons c ls

in_front-append :
    (c : Char) (feed : Bool) (ls more : List String)
    → IsCons ls
    → in_front c feed (ls ++ more) ≡ in_front c feed ls ++ more
in_front-append c feed List.[] more cons = absurd cons
in_front-append c feed (List.◌∷◌ l ls) more cons =
    split (nat_eq (code c) 10) (nat_eq (code c) 13) feed
  where
    split :
        (a b f : Bool)
        → (if a
            then List.◌∷◌ (c ∷ []) (List.◌∷◌ l ls ++ more)
            else if b
            then (if f
                then glue c (List.◌∷◌ l ls ++ more)
                else List.◌∷◌ (c ∷ []) (List.◌∷◌ l ls ++ more))
            else glue c (List.◌∷◌ l ls ++ more))
          ≡ (if a
              then List.◌∷◌ (c ∷ []) (List.◌∷◌ l ls)
              else if b
              then (if f then glue c (List.◌∷◌ l ls) else List.◌∷◌ (c ∷ []) (List.◌∷◌ l ls))
              else glue c (List.◌∷◌ l ls))
            ++ more
    split true b f = refl
    split false true true = refl
    split false true false = refl
    split false false f = refl

-- Lines behind whole lines.
split_lines-append :
    (s t : String) → ends_line s ≡ true → split_lines (s ^^ t) ≡ split_lines s ++ split_lines t
unfolding split_lines ends_line
split_lines-append [] t h = refl
split_lines-append (c ∷ []) t h = rw (h) refl
split_lines-append (c ∷ d ∷ s) t h =
    ap (in_front c (starts_with 10 (d ∷ s))) (split_lines-append (d ∷ s) t h)
    ∙ in_front-append c _ (split_lines (d ∷ s)) (split_lines t)
        (in_front-IsCons d (starts_with 10 s) (split_lines s))

module _ {W : Type 0} (p : Platform) (plaws : PlatformLaws p) (h : Host W) (laws : HostLaws h) where
  -- If the log is empty, missing or ends in a newline, and an event is recorded, then the log ends in a
  -- newline, and its lines are those that it had and, behind them, one line, which is the text of the
  -- event.
  pub write_audit_event-adds_line :
      (a : EventArgs) (w w' : W) (event : Fields) (existing : String)
      → existing_log p h w ≡ ok existing
      → ends_line existing ≡ true
      → write_audit_event p h a w ≡ (ok event, w')
      → (log : String) × (h.read_audit w' ≡ ok log)
        × (ends_line log ≡ true)
        × (split_lines log ≡ split_lines existing ++ List.◌∷◌ (p.dumps_line event ^^ "\n") List.[])
  write_audit_event-adds_line a w w' event existing before ends e =
      let appended = write_audit_event-Appended p h laws a w w' event e in
      let same : appended.existing ≡ existing = ok_inj (sym appended.before ∙ before) in
      let line = p.dumps_line event in
      (
        existing ^^ (line ^^ "\n"),
        appended.after ∙ ap (λ s. ok (s ^^ (line ^^ "\n"))) same,
        ends_line-append existing line (ends_line-line line),
        split_lines-append existing (line ^^ "\n") ends
            ∙ ap (λ ls. split_lines existing ++ ls)
                (split_lines-line line (plaws.dumps_line-one_line event)),
      )
