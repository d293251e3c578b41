-- ===== src/Value.antt =====
-- The values that a Go interface{} holds in an event: map[string]interface{} is `Dict Value`, and
-- `Fields` where it is nested. A float64 is its IEEE 754 bit pattern.
use splunk_firehose_nozzle.Base.{
  ℕ, ◌/◌, ◌%◌, ◌^◌, String, Bool, true, false, ◌&&◌, not, List, [], ◌∷◌, ◌≡◌, refl, ap, eqb, ◌==◌,
}
use splunk_firehose_nozzle.Base.Int.{ℤ}
use splunk_firehose_nozzle.Base.Dict.{Dict}

mutual
  pub data Value : Type 0 where
    nil : Value
    bool : Bool → Value
    str : String → Value
    int : ℤ → Value
    int32 : ℤ → Value
    int64 : ℤ → Value
    uint64 : ℕ → Value
    float64 : ℕ → Value
    texts : List String → Value
    text_map : List (String × String) → Value
    arr : Items → Value
    obj : Fields → Value

  pub data Items : Type 0 where
    empty : Items
    item : Value → Items → Items

  pub data Fields : Type 0 where
    done : Fields
    field : String → Value → Fields → Fields

-- A nested map as a map, and back.
unfoldable pub entries : Fields → Dict Value
entries done = []
entries (field k v fs) = (k, v) ∷ entries fs

unfoldable pub nested : Dict Value → Fields
nested [] = done
nested ((k, v) ∷ m) = field k v (nested m)

pub entries-nested : (m : Dict Value) → entries (nested m) ≡ m
unfolding entries nested
entries-nested [] = refl
entries-nested ((k, v) ∷ m) = ap (λ (r : Dict Value). (k, v) ∷ r) (entries-nested m)

-- v != nil
abbrev pub is_nil : Value → Bool
is_nil nil = true
is_nil _ = false

-- v == "s"
abbrev pub is_text : Value → String → Bool
is_text (str t) s = t == s
is_text _ s = false

abbrev pub plus_inf : ℕ
plus_inf = 0x7FF0000000000000

abbrev pub minus_inf : ℕ
minus_inf = 0xFFF0000000000000

-- math.IsNaN: the exponent is all ones, and the fraction is not zero.
unfoldable pub is_nan : ℕ → Bool
is_nan bits = eqb (bits / 2 ^ 52 % 2 ^ 11) 2047 && not (eqb (bits % 2 ^ 52) 0)
