-- ===== src/Writer/Index.antt =====
-- The index of an event, and that a retry prepares the batch as it was.
use splunk_firehose_nozzle.Base.{
  String, true, false, Option, none, some, [], ◌∷◌, ◌==◌, eq_refl, is_some, if◌then◌else◌, ◌≡◌, ◌⊎◌,
  refl, ap, subst, ◌∙◌, arith, Option-cases, inl, inr, Bool-cases,
}
use splunk_firehose_nozzle.Base.Dict.{lookup, insert, lookup-insert}
use splunk_firehose_nozzle.Value.{Value, obj, str, text_map, Fields, entries, is_nil}
use splunk_firehose_nozzle.Events.Annotate.{value_at}
use splunk_firehose_nozzle.Writer.{
  WriterConfig, Event, choose_index, set_index, set_fields, prepare,
}

-- The order of precedence: an index that the event has, the one of its app, the configured one.
abbrev pub expected_index : WriterConfig → Event → Fields → Option Value
expected_index config event fields =
    if is_some (lookup "index" event)
    then lookup "index" event
    else if is_nil (value_at "info_splunk_index" (entries fields))
    then (if config.index == "" then none else some (str config.index))
    else some (value_at "info_splunk_index" (entries fields))

lookup-set_fields :
    (config : WriterConfig) (event : Event) (k : String)
    → ("fields" == k) ≡ false
    → lookup k (set_fields config event) ≡ lookup k event
unfolding set_fields
lookup-set_fields config event k h =
    ground (arith, lookup-insert "fields" k (text_map config.fields) event)

-- the event with its index, where the map under "event" is known
indexed : WriterConfig → Event → Fields → Event
unfolding choose_index
indexed config event fields =
    if is_some (lookup "index" event) then event else choose_index config fields event

set_index-indexed :
    (config : WriterConfig) (event : Event) (fields : Fields)
    → lookup "event" event ≡ some (obj fields)
    → set_index config event ≡ some (indexed config event fields)
unfolding set_index indexed
set_index-indexed config event fields h = rw h (ground arith)

lookup-indexed :
    (config : WriterConfig) (event : Event) (fields : Fields)
    → lookup "index" (indexed config event fields) ≡ expected_index config event fields
unfolding indexed
lookup-indexed config event fields = ground (
  arith,
  lookup-insert "index" "index" (str config.index) event,
  lookup-insert "index" "index" (value_at "info_splunk_index" (entries fields)) event,
)

lookup-indexed_event :
    (config : WriterConfig) (event : Event) (fields : Fields)
    → lookup "event" (indexed config event fields) ≡ lookup "event" event
unfolding indexed
lookup-indexed_event config event fields = ground (
  arith,
  lookup-insert "index" "event" (str config.index) event,
  lookup-insert "index" "event" (value_at "info_splunk_index" (entries fields)) event,
)

-- An event that holds a map of fields is prepared without a panic, and its index is the one that
-- comes first: its own, that of its app, the configured one if that is not empty.
pub prepare-index :
    (config : WriterConfig) (event : Event) (fields : Fields)
    → lookup "event" event ≡ some (obj fields)
    → (e : Event) × (prepare config event ≡ some e)
      × (lookup "index" e ≡ expected_index config event fields)
unfolding prepare
prepare-index config event fields h = (
  set_fields config (indexed config event fields),
  rw (set_index-indexed config event fields h, prepare),
  lookup-set_fields config (indexed config event fields) "index" refl
      ∙ lookup-indexed config event fields,
)

-- What is under "event" stays.
pub prepare-event :
    (config : WriterConfig) (event e : Event) (fields : Fields)
    → lookup "event" event ≡ some (obj fields)
    → prepare config event ≡ some e
    → (lookup "event" e ≡ some (obj fields))
      × (lookup "index" e ≡ expected_index config event fields)
unfolding prepare
prepare-event config event e fields h made =
    let own = indexed config event fields in
    let same : set_fields config own ≡ e =
      the_same _ e (rw (set_index-indexed config event fields h, prepare) at made) in
    subst
      (λ (x : Event).
        (lookup "event" x ≡ some (obj fields))
        × (lookup "index" x ≡ expected_index config event fields))
      same
      (
        lookup-set_fields config own "event" refl ∙ lookup-indexed_event config event fields ∙ h,
        lookup-set_fields config own "index" refl ∙ lookup-indexed config event fields,
      )
  where
    the_same : (a b : Event) → ◌≡◌ {A = Option Event} (some a) (some b) → a ≡ b
    the_same a b k = ground (arith, k)

insert_twice : (k : String) (v : Value) (m : Event) → insert k v (insert k v m) ≡ insert k v m
unfolding insert
insert_twice k v [] = ground (arith, eq_refl k)
insert_twice k v ((j, w) ∷ m) = ground (arith, eq_refl k, insert_twice k v m)

set_fields_twice :
    (config : WriterConfig) (event : Event)
    → set_fields config (set_fields config event) ≡ set_fields config event
unfolding set_fields
set_fields_twice config event = ground (arith, insert_twice "fields" (text_map config.fields) event)

-- An event that has an index keeps it.
set_index-own :
    (config : WriterConfig) (event : Event)
    → is_some (lookup "index" event) ≡ true
    → set_index config event ≡ some event
unfolding set_index
set_index-own config event h = rw h

-- The test for an index has the same answer for any event that has no index.
indexed_none :
    (config : WriterConfig) (event e : Event) (fields : Fields)
    → is_some (lookup "index" (indexed config event fields)) ≡ false
    → is_some (lookup "index" e) ≡ false
    → indexed config e fields ≡ e
unfolding indexed
indexed_none config event e fields h k = ground (
  arith,
  lookup-insert "index" "index" (str config.index) event,
  lookup-insert "index" "index" (value_at "info_splunk_index" (entries fields)) event,
)

set_index_other :
    (config : WriterConfig) (event s : Event) (found : Option Value)
    → lookup "event" event ≡ found
    → set_index config event ≡ some s
    → (is_some (lookup "index" s) ≡ true)
      ⊎ ((fields : Fields) × (found ≡ some (obj fields)) × (s ≡ indexed config event fields))
unfolding set_index indexed
set_index_other config event s (some (obj fields)) l h = inr (fields, refl, ground arith)
set_index_other config event s found l h = inl (ground arith)

set_index_again :
    (config : WriterConfig) (event s : Event)
    → set_index config event ≡ some s
    → set_index config (set_fields config s) ≡ some (set_fields config s)
set_index_again config event s h = elim (Bool-cases (is_some (lookup "index" s))) [
  | inl own ↦ set_index-own config (set_fields config s) (rw (index_kept s) own)
  | inr missing ↦ elim (set_index_other config event s (lookup "event" event) refl h) [
    | inl own ↦ cc
    | inr (fields, found, e) ↦
        set_index-indexed config (set_fields config s) fields (
          lookup-set_fields config s "event" refl
          ∙ ap (lookup "event") e
          ∙ lookup-indexed_event config event fields
          ∙ found)
        ∙ ap some (
            indexed_none config event (set_fields config s) fields (rw (← e) missing)
              (rw (index_kept s) missing))
  ]
]
  where
    index_kept : (r : Event) → lookup "index" (set_fields config r) ≡ lookup "index" r
    index_kept r = lookup-set_fields config r "index" refl

prepare_parts :
    (config : WriterConfig) (event e : Event)
    → prepare config event ≡ some e
    → (s : Event) × (set_index config event ≡ some s) × (e ≡ set_fields config s)
unfolding prepare
prepare_parts config event e h = elim (Option-cases (set_index config event)) [
  | inl panic ↦ absurd (ground arith)
  | inr (s, indexed_s) ↦ (s, indexed_s, ground arith)
]

-- What a call of Write has prepared is prepared again as it is, so that a retry after an error posts
-- the same events.
pub prepare_twice :
    (config : WriterConfig) (event e : Event)
    → prepare config event ≡ some e
    → prepare config e ≡ some e
unfolding prepare
prepare_twice config event e h =
    let (s, indexed_s, same) = prepare_parts config event e h in
    rw (same, set_index_again config event s indexed_s, prepare)
      (ap some (set_fields_twice config s))
