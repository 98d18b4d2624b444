-- ===== src/HttpApi/Stream/Frames.antt =====
-- What a client reads from the event stream: the standard's reading of server-sent events, against what
-- handleEvents of internal/api/server.go writes.
use Prim.Native.Char.{code}
use Prim.Native.String.{[], ◌∷◌, ◌++◌}
use text.Mathlib.TextLemmas.{append_assoc, cons-append, nil-append, append-nil}
use mathlib.Core.List.{List}
use paas_controlplane.Base.{
  String, Bool, true, false, not, Option, none, some, Result, ok, err, ◌≡◌, refl, ap, sym, ◌∙◌,
  nat_eq, is_free, and-true, not-true, ◌⧺◌, ◌==◌, if◌then◌else◌, All, map,
}
use paas_controlplane.HttpApi.Stream.{Signal, gone, closed, snapshot, frame, follow, prime, written}

-- An event that a client sees: its type and its data.
pub record Event : Type 0 where
  pub name : String
  pub payload : String

-- The fields of the event that is being read.
pub record Draft : Type 0 where
  pub name : String
  pub payload : Option String

abbrev blank : Draft
blank = record { name = ""; payload = none }

-- The lines of a text that are ended, by LF, by CR or by CR and LF; `part` is the start of the first
-- one, and the flag says that the character before was a CR.
unfoldable pub lines_from : Bool → String → String → List String
lines_from after_cr part [] = List.[]
lines_from after_cr part (c ∷ s) =
    let rest = lines_from false "" s in
    let after = lines_from true "" s in
    let longer = lines_from false (part ++ c ∷ []) s in
    if nat_eq (code c) 10
    then (if after_cr then rest else List.◌∷◌ part rest)
    else if nat_eq (code c) 13
    then List.◌∷◌ part after
    else longer

-- One space after the colon is not part of the value.
abbrev without_space : String → String
without_space [] = []
without_space (c ∷ s) = if nat_eq (code c) 32 then s else c ∷ s

-- A line as a field and its value, at its first colon.
unfoldable pub field_from : String → String → String × String
field_from part [] = (part, "")
field_from part (c ∷ s) =
    let longer = field_from (part ++ c ∷ []) s in
    if nat_eq (code c) 58 then (part, without_space s) else longer

-- A second line of data is put under the first.
abbrev more_data : Option String → String → String
more_data none v = v
more_data (some before) v = before ⧺ "\n" ⧺ v

abbrev with_field : Draft → String × String → Draft
with_field d (name, v) =
    if name == "event"
    then record d { name = v }
    else if name == "data"
    then record d { payload = some (more_data d.payload v) }
    else d

-- A blank line ends an event; one without data is dropped.
-- An event without a type is a message.
abbrev type_or_message : String → String
type_or_message [] = "message"
type_or_message (c ∷ s) = c ∷ s

abbrev dispatch : String → Option String → List Event → List Event
dispatch name none later = later
dispatch name (some v) later = List.◌∷◌ (record { name = type_or_message name; payload = v }) later

unfoldable pub events_from : Draft → List String → List Event
unfolding field_from
events_from d List.[] = List.[]
events_from d (List.◌∷◌ [] lines) = dispatch d.name d.payload (events_from blank lines)
events_from d (List.◌∷◌ (c ∷ s) lines) = events_from (with_field d (field_from "" (c ∷ s))) lines

unfoldable pub events : String → List Event
unfolding lines_from events_from
events s = events_from blank (lines_from false "" s)

-- A text that is part of one line.
abbrev pub IsLine : String → Type 0
IsLine b = (is_free "\n" b ≡ true) × (is_free "\r" b ≡ true)

lines-line :
    (part l rest : String)
    → IsLine l
    → lines_from false part (l ++ ("\n" ∷ rest)) ≡ List.◌∷◌ (part ++ l) (lines_from false "" rest)
unfolding lines_from is_free
lines-line part [] rest free = simp (nil-append, append-nil)
lines-line part (c ∷ l) rest (no_lf, no_cr) =
    let (lf, later_lf) = and-true (not (nat_eq (code c) 10)) (is_free "\n" l) no_lf in
    let (cr, later_cr) = and-true (not (nat_eq (code c) 13)) (is_free "\r" l) no_cr in
    simp (
      cons-append,
      not-true _ lf,
      not-true _ cr,
      lines-line (part ++ c ∷ []) l rest (later_lf, later_cr),
      append_assoc,
      nil-append,
    )

abbrev data_line : String → String
data_line b = "d" ∷ "a" ∷ "t" ∷ "a" ∷ ":" ∷ " " ∷ b

data-line : (b : String) → "data: " ++ b ≡ data_line b
data-line b =
    cons-append "d" "ata: " b
    ∙ ap (λ s. "d" ∷ s) (cons-append "a" "ta: " b)
    ∙ ap (λ s. "d" ∷ "a" ∷ s) (cons-append "t" "a: " b)
    ∙ ap (λ s. "d" ∷ "a" ∷ "t" ∷ s) (cons-append "a" ": " b)
    ∙ ap (λ s. "d" ∷ "a" ∷ "t" ∷ "a" ∷ s) (cons-append ":" " " b)
    ∙ ap (λ s. "d" ∷ "a" ∷ "t" ∷ "a" ∷ ":" ∷ s) (cons-append " " "" b)
    ∙ ap data_line (nil-append b)

blank-line : (s : String) → "\n\n" ++ s ≡ "\n" ∷ "\n" ∷ s
blank-line s =
    cons-append "\n" "\n" s
    ∙ ap (λ x. "\n" ∷ x) (cons-append "\n" "" s ∙ ap (λ x. "\n" ∷ x) (nil-append s))

-- A message is two lines and a blank one.
frame-lines :
    (b rest : String)
    → frame b ⧺ rest ≡ "event: twin" ++ ("\n" ∷ (data_line b ++ ("\n" ∷ "\n" ∷ rest)))
unfolding frame
frame-lines b rest =
    append_assoc "event: twin\ndata: " (b ++ "\n\n") rest
    ∙ append_assoc "event: twin" "\ndata: " ((b ++ "\n\n") ++ rest)
    ∙ ap (λ s. "event: twin" ++ s)
        (cons-append "\n" "data: " ((b ++ "\n\n") ++ rest)
          ∙ ap (λ s. "\n" ∷ s)
              (ap (λ s. "data: " ++ s) (append_assoc b "\n\n" rest)
                ∙ sym (append_assoc "data: " b ("\n\n" ++ rest))
                ∙ ap (λ s. s ++ ("\n\n" ++ rest)) (data-line b)
                ∙ ap (λ s. data_line b ++ s) (blank-line rest)))

abbrev pub twin : String → Event
twin b = record { name = "twin"; payload = b }

events-frame :
    (b rest : String) → IsLine b → events (frame b ⧺ rest) ≡ List.◌∷◌ (twin b) (events rest)
unfolding events events_from field_from lines_from is_free
events-frame b rest free =
    let second = "\n" ∷ rest in
    ap (λ s. events_from blank (lines_from false "" s)) (frame-lines b rest)
    ∙ ap (events_from blank)
        (lines-line "" "event: twin" (data_line b ++ ("\n" ∷ second)) (refl, refl))
    ∙ ap (λ ls. events_from blank (List.◌∷◌ "event: twin" ls))
        (lines-line "" (data_line b) second free)
    ∙ ap (λ s. events_from blank (List.◌∷◌ "event: twin" (List.◌∷◌ s (lines_from false "" second))))
        (nil-append (data_line b))

-- The snapshots that the select finds before the stream ends.
unfoldable pub received : List Signal → List String
received List.[] = List.[]
received (List.◌∷◌ gone signals) = List.[]
received (List.◌∷◌ closed signals) = List.[]
received (List.◌∷◌ (snapshot b) signals) = List.◌∷◌ b (received signals)

-- The snapshots that the handler sends: the overlay that it starts with, if it can be encoded, and those
-- that it receives.
abbrev pub sent : Result String String → List Signal → List String
sent (ok b) signals = List.◌∷◌ b (received signals)
sent (err e) signals = received signals

follow-events :
    (signals : List Signal)
    → All IsLine (received signals)
    → events (follow signals) ≡ map twin (received signals)
unfolding follow received events events_from lines_from
follow-events List.[] lines = refl
follow-events (List.◌∷◌ gone signals) lines = refl
follow-events (List.◌∷◌ closed signals) lines = refl
follow-events (List.◌∷◌ (snapshot b) signals) (here, later) =
    events-frame b (follow signals) here
    ∙ ap (λ es. List.◌∷◌ (twin b) es) (follow-events signals later)

-- Reading back what handleEvents writes: a client that reads server-sent events, with lines that end at
-- LF, CR or CR and LF, fields up to a colon and an event at each blank line, sees the
-- overlay that the stream starts with and every snapshot that the handler receives before the request
-- is gone or the channel is closed, each as one event of the type twin, in order, and nothing else,
-- where an encoded overlay holds neither LF nor CR.
pub events-written :
    (first : Result String String) (signals : List Signal)
    → All IsLine (sent first signals)
    → events (written first signals) ≡ map twin (sent first signals)
unfolding written prime
events-written (ok b) signals (here, later) =
    events-frame b (follow signals) here
    ∙ ap (λ es. List.◌∷◌ (twin b) es) (follow-events signals later)
events-written (err e) signals lines =
    ap events (nil-append (follow signals)) ∙ follow-events signals lines
