-- ===== src/Events/Select.antt =====
-- Which event types the user wants: IsAuthorizedEvent, AuthorizedEvents, ParseSelectedEvents,
-- AuthorizedMetadata of events/events.go.
pub mod Laws
use Prim.Native.Nat.{Ordering}
use Prim.Native.String.{compare}
use splunk_firehose_nozzle.Base.{
  String, Bool, true, false, ◌||◌, Option, none, some, List, [], ◌∷◌, map, ◌==◌, if◌then◌else◌,
}
use splunk_firehose_nozzle.Base.Dict.{Dict, insert}
use splunk_firehose_nozzle.Base.Result.{Result, ok, err}
use splunk_firehose_nozzle.Utils.Text.{trim_space, split, join}
use splunk_firehose_nozzle.Events.Envelope.{EventType, event_name}

-- the keys of sonde-go's Envelope_EventType_value
unfoldable event_names : List String
unfolding event_name
event_names = map event_name (
    EventType.http_start ∷ EventType.http_stop ∷ EventType.http_start_stop ∷ EventType.log_message
    ∷ EventType.value_metric ∷ EventType.counter_event ∷ EventType.error
    ∷ EventType.container_metric ∷ [])

abbrev pub mem_text : String → List String → Bool
mem_text k [] = false
mem_text k (t ∷ ts) = t == k || mem_text k ts

unfoldable pub is_authorized_event : String → Bool
unfolding event_names
is_authorized_event wanted_event = mem_text wanted_event event_names

-- sort.Strings, in the order of code points
insert_sorted : String → List String → List String
insert_sorted s [] = s ∷ []
insert_sorted s (t ∷ ts) =
    let further = t ∷ insert_sorted s ts in
    elim (compare s t) [ Ordering.gt ↦ further | _ ↦ s ∷ t ∷ ts ]

sort_texts : List String → List String
unfolding insert_sorted
sort_texts [] = []
sort_texts (s ∷ ts) = insert_sorted s (sort_texts ts)

unfoldable pub authorized_events : String
unfolding sort_texts event_names join
authorized_events = join ", " (sort_texts event_names)

-- The event name that is rejected, and the valid ones.
pub data SelectError : Type 0 where
  rejected : String → String → SelectError

-- The loop over the wanted events.
unfoldable pub select : List String → Dict Bool → Result SelectError (Dict Bool)
select [] selected = ok selected
select (event ∷ events) selected =
    let name = trim_space event in
    let rest = select events (insert name true selected) in
    if is_authorized_event name then rest else err (rejected name authorized_events)

-- The items of a text that is no JSON array of texts are split at commas. `decode` is json.Unmarshal
-- into a slice of texts.
abbrev pub items_of : (String → Option (List String)) → String → List String
items_of decode wanted_events = elim (decode wanted_events) [
  | none ↦ split b',' wanted_events
  | some events ↦ events
]

unfoldable pub parse_selected_events :
    (String → Option (List String)) → String → Result SelectError (Dict Bool)
parse_selected_events decode wanted_events =
    let trimmed = trim_space wanted_events in
    if trimmed == "" then ok (("LogMessage", true) ∷ []) else select (items_of decode trimmed) []

unfoldable authorized_metadata : String
unfolding join
authorized_metadata = join ", " ("AppName" ∷ "OrgName" ∷ "OrgGuid" ∷ "SpaceName" ∷ "SpaceGuid" ∷ [])
