-- ===== src/Writer.antt =====
-- eventwriter/splunk.go: a batch of events is posted to the HTTP event collector.
pub mod Index
pub mod Frames
use Prim.Native.String.{◌++◌}
use splunk_firehose_nozzle.Base.{
  ℕ, String, Bool, true, false, Option, none, some, List, [], ◌∷◌, length, ltb, ◌==◌, is_some,
  if◌then◌else◌,
}
use splunk_firehose_nozzle.Base.Dict.{Dict, lookup, insert}
use splunk_firehose_nozzle.Value.{Value, obj, str, text_map, Fields, entries, is_nil}
use splunk_firehose_nozzle.Events.Annotate.{value_at}
use splunk_firehose_nozzle.Sink.Index.{Written}

pub record WriterConfig : Type 0 where
  pub host : String
  pub token : String
  pub index : String
  pub fields : Dict String
  pub skip_ssl : Bool
  pub debug : Bool
  pub version : String

abbrev pub Event : Type 0
Event = Dict Value

-- The index of the app, or else that of the configuration, if there is one.
choose_index : WriterConfig → Fields → Event → Event
choose_index config fields event =
    let wanted = value_at "info_splunk_index" (entries fields) in
    if is_nil wanted
    then (if config.index == "" then event else insert "index" (str config.index) event)
    else insert "index" wanted event

-- `none` is the panic of event["event"].(map[string]interface{}) on any other value.
index_by_event : WriterConfig → Option Value → Event → Option Event
unfolding choose_index
index_by_event config (some (obj fields)) event = some (choose_index config fields event)
index_by_event config _ event = none

-- An index that is there stays.
unfoldable pub set_index : WriterConfig → Event → Option Event
unfolding index_by_event
set_index config event =
    if is_some (lookup "index" event)
    then some event
    else index_by_event config (lookup "event" event) event

unfoldable pub set_fields : WriterConfig → Event → Event
set_fields config event =
    if ltb 0 (length config.fields) then insert "fields" (text_map config.fields) event else event

-- One round of the loop of Write, up to the call of the encoder.
unfoldable pub prepare : WriterConfig → Event → Option Event
prepare config event = elim (set_index config event) [
  | none ↦ none
  | some e ↦ some (set_fields config e)
]

unfoldable pub prepare_all : WriterConfig → List Event → Option (List Event)
prepare_all config [] = some []
prepare_all config (event ∷ events) = elim (prepare config event) [
  | none ↦ none
  | some e ↦ elim (prepare_all config events) [ none ↦ none | some es ↦ some (e ∷ es) ]
]

-- json.Marshal of an event is a parameter: its text, or nothing where a value cannot be encoded.
abbrev pub Encoder : Type 0
Encoder = Event → Option String

-- two line ends behind every event but the last of the batch
abbrev pub separator : List Event → String
separator [] = ""
separator (e ∷ events) = "\n\n"

-- What the loop appends to the buffer: an event that cannot be encoded is left out.
unfoldable pub body_of : Encoder → List Event → String
body_of marshal [] = ""
body_of marshal (event ∷ events) =
    let rest = body_of marshal events in
    elim (marshal event) [ none ↦ rest | some text ↦ text ++ (separator events ++ rest) ]

pub data WriteError : Type 0 where
  bad_request : String → WriteError
  unreachable : String → WriteError
  not_ok : ℕ → String → WriteError

pub record Request : Type 0 where
  pub method : String
  pub endpoint : String
  pub headers : List (String × String)
  pub body : String

-- What package net/http makes of a request: it cannot be made, it fails, or it is answered by a
-- status and a body.
pub data Response : Type 0 where
  invalid failed : String → Response
  answered : ℕ → String → Response

abbrev pub Transport : Type 0 → Type 0
Transport W = Request → W → Response × W

unfoldable pub request_of : WriterConfig → String → Request
request_of config post_body = record {
  method = "POST";
  endpoint = config.host ++ "/services/collector";
  headers =
      ("Content-Type", "application/json")
      ∷ ("Connection", "keep-alive")
      ∷ ("Authorization", "Splunk " ++ config.token)
      ∷ ("__splunk_app_name", "Splunk Firehose Nozzle")
      ∷ ("__splunk_app_version", config.version)
      ∷ [];
  body = post_body;
}

unfoldable pub error_of : Response → Option WriteError
error_of (invalid e) = some (bad_request e)
error_of (failed e) = some (unreachable e)
error_of (answered status body) = if ltb 299 status then some (not_ok status body) else none

module _ {W : Type 0} (transport : Transport W) (marshal : Encoder) where
  unfoldable pub send : WriterConfig → String → W → Option WriteError × W
  send config post_body w =
      let (response, w') = transport (request_of config post_body) w in (error_of response, w')

  -- In debug mode the body is printed and nothing is sent.
  unfoldable pub post : WriterConfig → String → W → Option WriteError × W
  post config body w = if config.debug then (none, w) else send config body w

  unfoldable pub write_prepared : WriterConfig → List Event → W → Written Event WriteError × W
  write_prepared config events w =
      let (error, w') = post config (body_of marshal events) w in
      (record { batch = events; error = error; count = length events }, w')

  -- `none` is a panic. The events are changed in place, so the batch comes back.
  unfoldable pub write : WriterConfig → List Event → W → Option (Written Event WriteError × W)
  unfolding write_prepared
  write config events w = elim (prepare_all config events) [
    | none ↦ none
    | some prepared ↦ some (write_prepared config prepared w)
  ]
