-- ===== src/Writer/Frames.antt =====
-- How the events of a batch are told apart in the body of a request.
use Prim.Native.String.{◌++◌}
use Prim.Native.String
use text.Mathlib.TextLemmas.{nil-append, append-nil, cons-append}
use splunk_firehose_nozzle.Base.{
  String, Char, false, none, some, List, [], ◌∷◌, ◌==◌, if◌then◌else◌, ◌≡◌, refl, ◌∙◌, ap,
  Option-cases, inl, inr,
}
use splunk_firehose_nozzle.Utils.Text.{split}
use splunk_firehose_nozzle.Utils.Text.Split.{Lacks, split-append_sep, split_whole}
use splunk_firehose_nozzle.Writer.{Event, Encoder, body_of, separator}

-- the lines that are not empty
abbrev pub filled : List String → List String
filled [] = []
filled (l ∷ ls) = if l == "" then filled ls else l ∷ filled ls

-- A reader of the body: its lines, without the empty ones.
abbrev pub read_events : String → List String
read_events body = filled (split 10 body)

-- the texts of the events that could be encoded
abbrev pub encoded : Encoder → List Event → List String
encoded marshal [] = []
encoded marshal (e ∷ es) =
    let rest = encoded marshal es in elim (marshal e) [ none ↦ rest | some text ↦ text ∷ rest ]

-- What is relied on of json.Marshal: the text of an event is not empty and has no line end.
abbrev pub WritesLines : Encoder → Type 0
WritesLines marshal =
    (e : Event) (text : String) → marshal e ≡ some text → ((text == "") ≡ false) × Lacks 10 text

line_end : Char
line_end = "\n"

read_framed :
    (text rest : String)
    → (text == "") ≡ false
    → Lacks 10 text
    → read_events (text ++ ("\n\n" ++ rest)) ≡ text ∷ read_events rest
read_framed text rest full line =
    ap (λ (s : String). read_events (text ++ s)) two_ends
    ∙ ap filled (split-append_sep 10 text line_end _ line (unfold line_end in refl))
    ∙ rw full (
        ap (λ (l : List String). text ∷ filled l)
          (split-append_sep 10 "" line_end rest tt (unfold line_end in refl)))
  where
    two_ends : "\n\n" ++ rest ≡ String.◌∷◌ line_end (String.◌++◌ "" (String.◌∷◌ line_end rest))
    two_ends =
        unfold line_end in
        cons-append "\n" "\n" rest
        ∙ ap (λ (s : String). String.◌∷◌ "\n" s)
            (cons-append "\n" "" rest ∙ rw (nil-append rest, nil-append))

read_last : (text : String) → (text == "") ≡ false → Lacks 10 text → read_events text ≡ text ∷ []
read_last text full line = rw (split_whole 10 text line, full)

body_of-none :
    (marshal : Encoder) (e : Event) (es : List Event)
    → marshal e ≡ none
    → (body_of marshal (e ∷ es) ≡ body_of marshal es)
      × (encoded marshal (e ∷ es) ≡ encoded marshal es)
unfolding body_of
body_of-none marshal e es h = (rw (h, body_of), rw (h, encoded))

body_of-some :
    (marshal : Encoder) (e : Event) (es : List Event) (text : String)
    → marshal e ≡ some text
    → (body_of marshal (e ∷ es) ≡ text ++ (separator es ++ body_of marshal es))
      × (encoded marshal (e ∷ es) ≡ text ∷ encoded marshal es)
unfolding body_of
body_of-some marshal e es text h = (rw (h, body_of), rw (h, encoded))

read_text :
    (marshal : Encoder) (text : String) (es : List Event)
    → (text == "") ≡ false
    → Lacks 10 text
    → read_events (text ++ (separator es ++ body_of marshal es))
      ≡ text ∷ read_events (body_of marshal es)
read_text marshal text [] full line =
    unfold body_of split in rw append-nil (read_last text full line)
read_text marshal text (e ∷ es) full line = read_framed text (body_of marshal (e ∷ es)) full line

-- For an encoder whose texts are not empty and have no line end, the events of a body are told apart by
-- its line ends: the lines that are not empty are exactly the
-- texts of the events that could be encoded, in the order of the batch, whichever events could not.
pub read_events-body_of :
    (marshal : Encoder) (events : List Event)
    → WritesLines marshal
    → read_events (body_of marshal events) ≡ encoded marshal events
read_events-body_of marshal [] h = unfold body_of split in refl
read_events-body_of marshal (e ∷ es) h = elim (Option-cases (marshal e)) [
  | inl lost ↦
      let (same_body, same_texts) = body_of-none marshal e es lost in
      rw (same_body, same_texts) (read_events-body_of marshal es h)
  | inr (text, made) ↦
      let (body, texts) = body_of-some marshal e es text made in
      let (full, line) = h e text made in
      rw (body, texts, read_text marshal text es full line, read_events-body_of marshal es h)
]
