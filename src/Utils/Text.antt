-- ===== src/Utils/Text.antt =====
-- What the program uses of package strings, and ConcatFormat of utils/utils.go. A text is a list of
-- Unicode code points; a Go string that is no valid UTF-8 is not modelled.
pub mod Split
pub mod Slashes
use Prim.Native.String.{[], ◌∷◌, ◌++◌}
use mathlib.Core.List.{List, map}
use mathlib.Core.List
use splunk_firehose_nozzle.Base.{
  ℕ, zero, suc, ◌-◌, Bool, ltb, true, false, ◌||◌, ◌&&◌, String, Char, code, ◌≡◌, refl, arith, leb,
  eqb, ◌==◌, if◌then◌else◌,
}

-- unicode.IsSpace
unfoldable is_space : Char → Bool
is_space ch =
    let c = code ch in
    (leb 9 c && leb c 13)
    || eqb c 32
    || eqb c 0x85
    || eqb c 0xA0
    || eqb c 0x1680
    || (leb 0x2000 c && leb c 0x200A)
    || eqb c 0x2028
    || eqb c 0x2029
    || eqb c 0x202F
    || eqb c 0x205F
    || eqb c 0x3000

unfoldable pub trim_left : String → String
unfolding is_space
trim_left [] = []
trim_left (c ∷ s) = if is_space c then trim_left s else c ∷ s

-- what is left of a character once the text behind it is trimmed
trim_cons : Char → String → String
unfolding is_space
trim_cons c [] = if is_space c then [] else c ∷ []
trim_cons c (d ∷ s) = c ∷ d ∷ s

unfoldable pub trim_right : String → String
unfolding trim_cons
trim_right [] = []
trim_right (c ∷ s) = trim_cons c (trim_right s)

-- strings.TrimSpace
unfoldable pub trim_space : String → String
unfolding trim_left trim_right
trim_space s = trim_right (trim_left s)

-- strings.TrimRight(s, "/")
slash_cons : Char → String → String
slash_cons c [] = if eqb (code c) b'/' then [] else c ∷ []
slash_cons c (d ∷ s) = c ∷ d ∷ s

unfoldable pub trim_slashes : String → String
unfolding slash_cons
trim_slashes [] = []
trim_slashes (c ∷ s) = slash_cons c (trim_slashes s)

-- `c` in front of the first part
unfoldable pub cons_part : Char → List String → List String
cons_part c List.[] = List.◌∷◌ (c ∷ []) List.[]
cons_part c (List.◌∷◌ p ps) = List.◌∷◌ (c ∷ p) ps

-- strings.Split at a separator of one character
unfoldable pub split : ℕ → String → List String
unfolding cons_part
split sep [] = List.◌∷◌ [] List.[]
split sep (c ∷ s) =
    let rest = split sep s in if eqb (code c) sep then List.◌∷◌ [] rest else cons_part c rest

-- strings.Join
unfoldable pub join : String → List String → String
join sep List.[] = []
join sep (List.◌∷◌ p List.[]) = p
join sep (List.◌∷◌ p (List.◌∷◌ q ps)) = p ++ (sep ++ join sep (List.◌∷◌ q ps))

-- strings.HasPrefix
unfoldable has_prefix : String → String → Bool
has_prefix s [] = true
has_prefix [] (d ∷ t) = false
has_prefix (c ∷ s) (d ∷ t) = eqb (code c) (code d) && has_prefix s t

-- strings.Contains
unfoldable pub contains : String → String → Bool
unfolding has_prefix
contains [] t = has_prefix [] t
contains (c ∷ s) t = has_prefix (c ∷ s) t || contains s t

-- strings.HasSuffix, for a suffix of one character
unfoldable pub ends_with : String → ℕ → Bool
ends_with [] d = false
ends_with (c ∷ []) d = eqb (code c) d
ends_with (c ∷ d ∷ s) e = ends_with (d ∷ s) e

unfoldable pub starts_with : String → ℕ → Bool
starts_with [] d = false
starts_with (c ∷ s) d = eqb (code c) d

-- the character at an index, or the given one behind the end
letter : String → ℕ → Char → Char
letter [] i d = d
letter (c ∷ s) zero d = c
letter (c ∷ s) (suc i) d = letter s i d

-- unicode.ToLower: ASCII by table; `fold` is the mapping of the other code points.
unfoldable lower_char : (Char → Char) → Char → Char
unfolding letter
lower_char fold c =
    if leb b'A' (code c) && leb (code c) b'Z'
    then letter "abcdefghijklmnopqrstuvwxyz" (code c - b'A') c
    else if ltb (code c) 128
    then c
    else fold c

-- strings.ToLower
unfoldable pub to_lower : (Char → Char) → String → String
unfolding lower_char
to_lower fold [] = []
to_lower fold (c ∷ s) = lower_char fold c ∷ to_lower fold s

-- strings.NewReplacer(".", "_")
unfoldable underscores : String → String
underscores [] = []
underscores (c ∷ s) = (if eqb (code c) b'.' then "_" else c) ∷ underscores s

unfoldable concat_format : List String → String
unfolding underscores trim_space join
concat_format string_list = join "." (map (λ s. trim_space (underscores s)) string_list)
