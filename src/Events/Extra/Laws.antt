-- ===== src/Events/Extra/Laws.antt =====
-- Which texts ParseExtraFields accepts, and which value each key has then.
use Prim.Native.String.{[], ◌∷◌}
use splunk_firehose_nozzle.Base.{
  ℕ, suc, Bool, true, false, ◌&&◌, ◌||◌, String, Char, code, Option, none, some, List, ◌≡◌, refl,
  sym, ◌∙◌, ap, subst, arith, Bool-cases, inl, inr, eqb, length, ◌==◌, if◌then◌else◌,
}
use splunk_firehose_nozzle.Base.Dict.{
  Dict, insert, lookup, lookup-insert, lookup-nil, IsMap, insert-IsMap,
}
use splunk_firehose_nozzle.Base.Result.{Result, ok, err, ◌>>=◌, is_ok}
use splunk_firehose_nozzle.Utils.Text.{trim_space, split, cons_part}
use splunk_firehose_nozzle.Events.Extra.{
  ExtraError, pair_of, get_key_value_from_string, add_pairs, parse_extra_fields,
}

-- How often a character stands in a text, and the text before and behind its first place.
abbrev pub occurrences : ℕ → String → ℕ
occurrences sep [] = 0
occurrences sep (c ∷ s) = if eqb (code c) sep then suc (occurrences sep s) else occurrences sep s

abbrev pub before : ℕ → String → String
before sep [] = []
before sep (c ∷ s) = if eqb (code c) sep then [] else c ∷ before sep s

abbrev pub behind : ℕ → String → String
behind sep [] = []
behind sep (c ∷ s) = if eqb (code c) sep then s else behind sep s

split_none : (sep : ℕ) (s : String) → occurrences sep s ≡ 0 → split sep s ≡ List.◌∷◌ s List.[]
unfolding split
split_none sep [] h = refl
split_none sep (c ∷ s) h = elim (Bool-cases (eqb (code c) sep)) [
  | inl at ↦ absurd (ground (arith, h, at))
  | inr other ↦ rw (other, split_none sep s (rw other at h)) refl
]

split_one :
    (sep : ℕ) (s : String)
    → occurrences sep s ≡ 1
    → split sep s ≡ List.◌∷◌ (before sep s) (List.◌∷◌ (behind sep s) List.[])
unfolding split
split_one sep [] h = absurd (omega (arith, h))
split_one sep (c ∷ s) h = elim (Bool-cases (eqb (code c) sep)) [
  | inl at ↦ rw (at, split_none sep s (omega (arith, rw at at h))) refl
  | inr other ↦ rw (other, split_one sep s (rw other at h)) refl
]

length-cons_part :
    (c : Char) (ps : List String) (n : ℕ) → length ps ≡ suc n → length (cons_part c ps) ≡ suc n
unfolding cons_part
length-cons_part c List.[] n h = absurd (omega (arith, h))
length-cons_part c (List.◌∷◌ p ps) n h = h

-- The parts are one more than the separators.
length-split : (sep : ℕ) (s : String) → length (split sep s) ≡ suc (occurrences sep s)
unfolding split
length-split sep [] = refl
length-split sep (c ∷ s) = elim (Bool-cases (eqb (code c) sep)) [
  | inl at ↦ rw at (ap suc (length-split sep s))
  | inr other ↦ rw other (length-cons_part c (split sep s) _ (length-split sep s))
]

is_ok-pair_of :
    (kv_pair : String) (parts : List String) → is_ok (pair_of kv_pair parts) ≡ eqb (length parts) 2
unfolding pair_of
is_ok-pair_of s List.[] = refl
is_ok-pair_of s (List.◌∷◌ k List.[]) = refl
is_ok-pair_of s (List.◌∷◌ k (List.◌∷◌ v List.[])) = refl
is_ok-pair_of s (List.◌∷◌ k (List.◌∷◌ v (List.◌∷◌ w ps))) = ground arith

-- A part of the text that is a pair: one that is empty is passed over.
abbrev pub is_pair : String → Bool
is_pair kv_pair = kv_pair == "" || eqb (occurrences b':' (trim_space kv_pair)) 1

abbrev pub all_pairs : List String → Bool
all_pairs List.[] = true
all_pairs (List.◌∷◌ kv_pair rest) = is_pair kv_pair && all_pairs rest

is_ok-get_key_value :
    (s : String) → is_ok (get_key_value_from_string s) ≡ eqb (occurrences b':' s) 1
unfolding get_key_value_from_string
is_ok-get_key_value s = is_ok-pair_of s (split b':' s) ∙ rw (length-split b':' s) (ground arith)

is_ok-bind :
    {E A B : Type 0} (r : Result E A) (f : A → Result E B) (b : Bool)
    → ((a : A) → is_ok (f a) ≡ b)
    → is_ok (r >>= f) ≡ (is_ok r && b)
is_ok-bind (ok a) f b h = h a
is_ok-bind (err e) f b h = refl

is_ok-add_pairs :
    (parts : List String) (extra : Dict String) → is_ok (add_pairs parts extra) ≡ all_pairs parts
unfolding add_pairs
is_ok-add_pairs List.[] extra = refl
is_ok-add_pairs (List.◌∷◌ kv_pair rest) extra = elim (Bool-cases (kv_pair == "")) [
  | inl empty ↦ rw (empty, is_ok-add_pairs rest extra) refl
  | inr held ↦ rw held (
      is_ok-bind (get_key_value_from_string (trim_space kv_pair)) _ (all_pairs rest)
        (λ p. is_ok-add_pairs rest (insert p.0 p.1 extra))
      ∙ rw (is_ok-get_key_value (trim_space kv_pair)) refl)
]

-- ParseExtraFields succeeds exactly if every part of the text between commas is empty or has, without
-- the blanks around it, exactly one colon.
pub is_ok-parse_extra_fields :
    (text : String) → is_ok (parse_extra_fields text) ≡ all_pairs (split b',' text)
unfolding parse_extra_fields
is_ok-parse_extra_fields text = is_ok-add_pairs (split b',' text) List.[]

-- The key and the value of a part.
abbrev pub key_of : String → String
key_of kv_pair = trim_space (before b':' (trim_space kv_pair))

abbrev pub value_of : String → String
value_of kv_pair = trim_space (behind b':' (trim_space kv_pair))

-- What the last part with the key gives it, if there is one.
abbrev pub last_given : String → List String → Option String → Option String
last_given k List.[] found = found
last_given k (List.◌∷◌ kv_pair rest) found = last_given k rest (
    if kv_pair == "" then found else if key_of kv_pair == k then some (value_of kv_pair) else found)

get_key_value_pair :
    (s : String)
    → eqb (occurrences b':' s) 1 ≡ true
    → get_key_value_from_string s ≡ ok (trim_space (before b':' s), trim_space (behind b':' s))
unfolding get_key_value_from_string pair_of
get_key_value_pair s h = rw (split_one b':' s (ground (arith, h))) refl

-- What a part that is not empty comes to.
pair_added :
    (kv_pair : String) (rest : List String) (extra d : Dict String)
    → (kv_pair == "") ≡ false
    → add_pairs (List.◌∷◌ kv_pair rest) extra ≡ ok d
    → add_pairs rest (insert (key_of kv_pair) (value_of kv_pair) extra) ≡ ok d
unfolding add_pairs
pair_added kv_pair rest extra d held h =
    elim (Bool-cases (eqb (occurrences b':' (trim_space kv_pair)) 1)) [
      | inl pair ↦ rw (held, get_key_value_pair (trim_space kv_pair) pair) at h
      | inr other ↦ absurd (
          ground (
            arith,
            is_ok-add_pairs (List.◌∷◌ kv_pair rest) extra,
            ap (λ (r : Result ExtraError (Dict String)). is_ok r) h,
            held,
            other,
          ))
    ]

same_value : (c d : Dict String) → ◌≡◌ {A = Result ExtraError (Dict String)} (ok c) (ok d) → c ≡ d
same_value c d h = cc

lookup-add_pairs :
    (k : String) (parts : List String) (extra d : Dict String)
    → add_pairs parts extra ≡ ok d
    → lookup k d ≡ last_given k parts (lookup k extra)
unfolding add_pairs
lookup-add_pairs k List.[] extra d h =
    ap (λ (m : Dict String). lookup k m) (sym (same_value extra d h))
lookup-add_pairs k (List.◌∷◌ kv_pair rest) extra d h = elim (Bool-cases (kv_pair == "")) [
  | inl empty ↦ rw empty (lookup-add_pairs k rest extra d (rw empty at h))
  | inr held ↦ rw held (
      lookup-add_pairs k rest (insert (key_of kv_pair) (value_of kv_pair) extra) d
        (pair_added kv_pair rest extra d held h)
      ∙ ap (λ found. last_given k rest found)
          (lookup-insert (key_of kv_pair) k (value_of kv_pair) extra))
]

add_pairs-IsMap :
    (parts : List String) (extra d : Dict String)
    → add_pairs parts extra ≡ ok d
    → IsMap extra
    → IsMap d
unfolding add_pairs
add_pairs-IsMap List.[] extra d h all =
    subst (λ (m : Dict String). IsMap m) (same_value extra d h) all
add_pairs-IsMap (List.◌∷◌ kv_pair rest) extra d h all = elim (Bool-cases (kv_pair == "")) [
  | inl empty ↦ add_pairs-IsMap rest extra d (rw empty at h) all
  | inr held ↦
      add_pairs-IsMap rest (insert (key_of kv_pair) (value_of kv_pair) extra) d
        (pair_added kv_pair rest extra d held h)
        (insert-IsMap (key_of kv_pair) (value_of kv_pair) extra all)
]

pub parse_extra_fields-IsMap :
    (text : String) (d : Dict String) → parse_extra_fields text ≡ ok d → IsMap d
unfolding parse_extra_fields
parse_extra_fields-IsMap text d h = add_pairs-IsMap (split b',' text) List.[] d h tt

pub lookup-parse_extra_fields :
    (k text : String) (d : Dict String)
    → parse_extra_fields text ≡ ok d
    → lookup k d ≡ last_given k (split b',' text) none
unfolding parse_extra_fields
lookup-parse_extra_fields k text d h =
    lookup-add_pairs k (split b',' text) List.[] d h
    ∙ ap (λ (found : Option String). last_given k (split b',' text) found) (lookup-nil k)
