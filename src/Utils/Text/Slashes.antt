-- ===== src/Utils/Text/Slashes.antt =====
-- What strings.TrimRight takes off at the end of a text.
use Prim.Native.String.{[], ◌∷◌, ◌++◌}
use text.Mathlib.TextLemmas.{nil-append, cons-append}
use splunk_firehose_nozzle.Base.{
  String, Char, code, true, false, ◌≡◌, refl, sym, ap, subst, ◌∙◌, eqb, Bool-cases, inl, inr,
}
use splunk_firehose_nozzle.Utils.Text.{trim_slashes, slash_cons, ends_with}

-- The text holds slashes and nothing else.
abbrev pub OnlySlashes : String → Type 0
OnlySlashes [] = Unit {0}
OnlySlashes (c ∷ s) = (eqb (code c) b'/' ≡ true) × OnlySlashes s

-- A text is trimmed to a part of it that does not end in a slash, where what is cut off is slashes.
abbrev pub IsTrimmed : String → String → Type 0
IsTrimmed s t = (cut : String) × (s ≡ t ++ cut) × OnlySlashes cut × (ends_with t b'/' ≡ false)

slash_cons-IsTrimmed :
    (c : Char) (s t : String) → IsTrimmed s t → IsTrimmed (c ∷ s) (slash_cons c t)
unfolding slash_cons ends_with
slash_cons-IsTrimmed c s [] (cut, parts, only, end) = elim (Bool-cases (eqb (code c) b'/')) [
  | inl slash ↦ rw slash (
    c ∷ s,
    sym (nil-append (c ∷ s)),
    (slash, subst OnlySlashes (sym (parts ∙ nil-append cut)) only),
    refl,
  )
  | inr other ↦ rw other (cut, ap (λ r. c ∷ r) parts ∙ sym (cons-append c [] cut), only, other)
]
slash_cons-IsTrimmed c s (d ∷ t) (cut, parts, only, end) =
    (cut, ap (λ r. c ∷ r) parts ∙ sym (cons-append c (d ∷ t) cut), only, end)

pub trim_slashes-IsTrimmed : (s : String) → IsTrimmed s (trim_slashes s)
unfolding trim_slashes ends_with
trim_slashes-IsTrimmed [] = ([], sym (nil-append []), tt, refl)
trim_slashes-IsTrimmed (c ∷ s) =
    slash_cons-IsTrimmed c s (trim_slashes s) (trim_slashes-IsTrimmed s)
