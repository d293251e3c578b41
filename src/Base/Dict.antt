-- ===== src/Base/Dict.antt =====
-- A Go map with string keys, as an association list. `insert` replaces the value of a key that is
-- there, so a key stands once; the program never relies on the order of a map.
use Prim.Native.String.{String}
use mathlib.Core.Path.{◌≡◌, refl}
use mathlib.Core.Option.{Option, none, some}
use mathlib.Core.List.{List, [], ◌∷◌}
use native.Mathlib.Omega.{arith}
use text.Mathlib.Text.{◌==◌}
use text.Mathlib.TextEquality.{eq_iff}
use text.Mathlib.TextPositions.{eq_refl}
use mathlib.Core.Logic.{inl, inr}
use splunk_firehose_nozzle.Base.Tests.{if◌then◌else◌, Bool-cases}

abbrev pub Dict {ℓ} : Type ℓ → Type ℓ
Dict V = List (String × V)

module _ {ℓ} {V : Type ℓ} where
  -- v, ok := m[key]
  unfoldable pub lookup : String → Dict V → Option V
  lookup key [] = none
  lookup key ((at, held) ∷ entries) =
      let behind = lookup key entries in if at == key then some held else behind

  -- m[key] = value
  unfoldable pub insert : String → V → Dict V → Dict V
  insert key value [] = (key, value) ∷ []
  insert key value ((at, held) ∷ entries) =
      let kept = (at, held) ∷ insert key value entries in
      if at == key then (at, value) ∷ entries else kept

  pub lookup-insert :
      (key other : String) (value : V) (entries : Dict V)
      → lookup other (insert key value entries)
        ≡ (if key == other then some value else lookup other entries)
  unfolding lookup insert
  lookup-insert key other value [] = refl
  lookup-insert key other value ((at, held) ∷ entries) = ground (
    lookup-insert key other value entries,
    eq_iff at other,
    eq_iff at key,
    eq_iff key other,
    arith,
  )

  pub lookup-insert_self :
      (key : String) (value : V) (entries : Dict V)
      → lookup key (insert key value entries) ≡ some value
  lookup-insert_self key value entries = rw (lookup-insert, eq_refl)

  pub lookup-nil : (k : String) → ◌≡◌ {A = Option V} (lookup k []) none
  unfolding lookup
  lookup-nil k = refl

  -- Each key stands once, as in every map that `insert` built.
  abbrev pub IsMap : Dict V → Type ℓ
  IsMap [] = Unit
  IsMap ((at, held) ∷ entries) = (lookup at entries ≡ none) × IsMap entries

  pub insert-IsMap :
      (key : String) (value : V) (entries : Dict V)
      → IsMap entries
      → IsMap (insert key value entries)
  unfolding insert
  insert-IsMap key value [] h = (lookup-nil key, tt)
  insert-IsMap key value ((at, held) ∷ entries) (fresh, h) = elim (Bool-cases (at == key)) [
    | inl same ↦ rw same (fresh, h)
    | inr other ↦
        rw (other, insert)
          (
            ground (
              arith,
              lookup-insert key at value entries,
              other,
              fresh,
              eq_iff key at,
              eq_iff at key,
            ),
            insert-IsMap key value entries h,
          )
  ]

pub ruleset dict_laws = (lookup-insert, lookup-nil, eq_refl)
