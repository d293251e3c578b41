-- ===== src/Utils/Text/Split.antt =====
-- What strings.Split makes of a text that was put together with separators.
use Prim.Native.String.{[], ◌∷◌, ◌++◌}
use text.Mathlib.TextLemmas.{nil-append, cons-append}
use splunk_firehose_nozzle.Base.{ℕ, String, Char, List, true, false, eqb, code, ◌≡◌, refl}
use splunk_firehose_nozzle.Utils.Text.{split}

-- No character of the text is the separator.
abbrev pub Lacks : ℕ → String → Type 0
Lacks sep [] = Unit {0}
Lacks sep (c ∷ s) = (eqb (code c) sep ≡ false) × Lacks sep s

pub split-append_sep :
    (sep : ℕ) (s : String) (d : Char) (rest : String)
    → Lacks sep s
    → eqb (code d) sep ≡ true
    → split sep (s ++ (d ∷ rest)) ≡ List.◌∷◌ s (split sep rest)
unfolding split
split-append_sep sep [] d rest h k = rw (nil-append, split) (rw k)
split-append_sep sep (c ∷ s) d rest (hc, hs) k =
    rw (cons-append, split) (rw (hc, split-append_sep sep s d rest hs k))

pub split_whole : (sep : ℕ) (s : String) → Lacks sep s → split sep s ≡ List.◌∷◌ s List.[]
unfolding split
split_whole sep [] h = refl
split_whole sep (c ∷ s) (hc, hs) = rw (hc, split_whole sep s hs)
