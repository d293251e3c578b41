-- ===== src/Cache/Boltdb/Copied.antt =====
-- GetAllApps gives the apps of the cache.
use splunk_firehose_nozzle.Base.{
  suc, ◌+◌, length, ◌⊎◌, String, Option, none, some, [], ◌∷◌, ◌≡◌, refl, sym, ◌∙◌, arith, eq_iff,
  inl, inr, ◌==◌, if◌then◌else◌, Bool-cases, Option-cases,
}
use splunk_firehose_nozzle.Base.Dict.{Dict, lookup, insert, lookup-nil, lookup-insert, IsMap}
use splunk_firehose_nozzle.Cache.App.{App}
use splunk_firehose_nozzle.Cache.Boltdb.{Storage, Boltdb, copy_apps, get_all_apps}
use splunk_firehose_nozzle.Cache.Boltdb.Keyed.{IsKeyed, Inv}

-- A copy of a cache whose apps stand under their guids has the entries of the cache.
IsKeyed-rest :
    (at : String) (held : App) (m : Dict App)
    → lookup at m ≡ none
    → IsKeyed ((at, held) ∷ m)
    → (held.guid ≡ at) × IsKeyed m
unfolding lookup
IsKeyed-rest at held m fresh h = (
  h at held (ground (arith, eq_iff at at)),
  λ k app found. h k app (ground (arith, found, fresh, eq_iff at k)),
)

length-insert :
    (key : String) (app : App) (m : Dict App)
    → lookup key m ≡ none
    → length (insert key app m) ≡ suc (length m)
unfolding lookup insert
length-insert key app [] fresh = refl
length-insert key app ((at, held) ∷ m) fresh = elim (Bool-cases (at == key)) [
  | inl same ↦ absurd (ground (arith, rw same at fresh))
  | inr other ↦
      rw other (let grown = length-insert key app m (rw other at fresh) in ground (arith, grown))
]

-- Each key has an entry in one of them at most.
abbrev AreDisjoint : Dict App → Dict App → Type 0
AreDisjoint m acc = (k : String) → (lookup k m ≡ none) ⊎ (lookup k acc ≡ none)

module _ (st : Storage) where
  abbrev or_else : Option App → Option App → Option App
  or_else none other = other
  or_else (some app) other = some app

  copy_apps-lookup :
      (m acc : Dict App) (k : String)
      → IsMap m
      → IsKeyed m
      → lookup k (copy_apps st m acc) ≡ or_else (lookup k m) (lookup k acc)
  unfolding copy_apps lookup
  copy_apps-lookup [] acc k is keyed = refl
  copy_apps-lookup ((at, held) ∷ m) acc k (fresh, is) keyed =
      let (own, rest) = IsKeyed-rest at held m fresh keyed in
      let copied = copy_apps-lookup m (insert held.guid held acc) k is rest in
      let added : lookup k (insert held.guid held acc)
          ≡ (if at == k then some held else lookup k acc) =
        rw (sym own) (lookup-insert held.guid k held acc) in
      elim (Bool-cases (at == k)) [
        | inl here ↦
            let gone : lookup k m ≡ none = ground (arith, fresh, here, eq_iff at k) in
            rw here (copied ∙ rw (gone, added, here) refl)
        | inr other ↦ rw other (copied ∙ rw (added, other) refl)
      ]

  copy_apps-length :
      (m acc : Dict App)
      → IsMap m
      → IsKeyed m
      → AreDisjoint m acc
      → length (copy_apps st m acc) ≡ length m + length acc
  unfolding copy_apps lookup
  copy_apps-length [] acc is keyed apart = omega arith
  copy_apps-length ((at, held) ∷ m) acc (fresh, is) keyed apart =
      let (own, rest) = IsKeyed-rest at held m fresh keyed in
      let first : lookup at acc ≡ none = ground (arith, apart at, eq_iff at at) in
      let added : length (insert held.guid held acc) ≡ suc (length acc) =
        length-insert held.guid held acc (rw own first) in
      let moved : AreDisjoint m (insert held.guid held acc) =
        λ k. ground (arith, apart k, fresh, own, eq_iff at k, lookup-insert held.guid k held acc) in
      let copied = copy_apps-length m (insert held.guid held acc) is rest moved in
      copied ∙ omega (arith, added)

  pub get_all_apps-length :
      (s : Boltdb st)
      → IsMap s.cache
      → IsKeyed s.cache
      → length (get_all_apps st s) ≡ length s.cache
  unfolding get_all_apps
  get_all_apps-length s is keyed =
      copy_apps-length s.cache [] is keyed (λ k. inr (lookup-nil k)) ∙ omega arith

  pub get_all_apps-lookup :
      (s : Boltdb st) (k : String) → Inv st s → lookup k (get_all_apps st s) ≡ lookup k s.cache
  unfolding get_all_apps
  get_all_apps-lookup s k h = elim (Option-cases (lookup k s.cache)) [
    | inl missing ↦
        copy_apps-lookup s.cache [] k h.cache_map h.cache_keyed ∙ rw (missing, lookup-nil) refl
    | inr (app, found) ↦ copy_apps-lookup s.cache [] k h.cache_map h.cache_keyed ∙ rw found refl
  ]
