-- ===== src/Events/Select/Laws.antt =====
-- What ParseSelectedEvents accepts, and what it selects.
use splunk_firehose_nozzle.Base.{
  String, Bool, true, ◌&&◌, Option, none, some, List, [], ◌∷◌, map, ◌==◌, if◌then◌else◌, ◌≡◌, refl,
  arith, Bool-cases, inl, inr,
}
use splunk_firehose_nozzle.Base.Dict.{Dict, lookup, insert, lookup-insert}
use splunk_firehose_nozzle.Base.Result.{ok, is_ok}
use splunk_firehose_nozzle.Utils.Text.{trim_space}
use splunk_firehose_nozzle.Events.Select.{
  mem_text, is_authorized_event, items_of, select, parse_selected_events,
}

-- The names that the user's text asks for: without any, log messages.
abbrev pub wanted_names : (String → Option (List String)) → String → List String
wanted_names decode wanted_events =
    let trimmed = trim_space wanted_events in
    if trimmed == "" then "LogMessage" ∷ [] else map trim_space (items_of decode trimmed)

abbrev pub all_authorized : List String → Bool
all_authorized [] = true
all_authorized (name ∷ names) = is_authorized_event name && all_authorized names

lookup-select :
    (k : String) (events : List String) (selected m : Dict Bool)
    → select events selected ≡ ok m
    → lookup k m ≡ (if mem_text k (map trim_space events) then some true else lookup k selected)
unfolding select
lookup-select k [] selected m h = ground arith
lookup-select k (event ∷ events) selected m h = ground (
  arith,
  lookup-select k events (insert (trim_space event) true selected) m,
  lookup-insert (trim_space event) k true selected,
)

is_ok-select :
    (events : List String) (selected : Dict Bool)
    → is_ok (select events selected) ≡ all_authorized (map trim_space events)
unfolding select
is_ok-select [] selected = refl
is_ok-select (event ∷ events) selected =
    ground (arith, is_ok-select events (insert (trim_space event) true selected))

-- A text of wanted events is accepted exactly if every name that it asks for is that of an event type.
pub is_ok-parse_selected_events :
    (decode : String → Option (List String)) (wanted_events : String)
    → is_ok (parse_selected_events decode wanted_events)
      ≡ all_authorized (wanted_names decode wanted_events)
unfolding parse_selected_events is_authorized_event
is_ok-parse_selected_events decode wanted_events =
    elim (Bool-cases (trim_space wanted_events == "")) [
      | inl blank ↦ rw blank
      | inr text ↦ rw text (is_ok-select (items_of decode (trim_space wanted_events)) [])
    ]

-- The selection that is returned holds exactly the names that the text asks for.
pub lookup-parse_selected_events :
    (decode : String → Option (List String)) (wanted_events : String) (m : Dict Bool) (k : String)
    → parse_selected_events decode wanted_events ≡ ok m
    → lookup k m ≡ (if mem_text k (wanted_names decode wanted_events) then some true else none)
unfolding parse_selected_events lookup
lookup-parse_selected_events decode wanted_events m k h =
    ground (arith, lookup-select k (items_of decode (trim_space wanted_events)) [] m)
