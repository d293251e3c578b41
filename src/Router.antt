-- ===== src/Router.antt =====
-- eventrouter/default.go: envelopes of the selected types go to the sink.
use splunk_firehose_nozzle.Base.{
  String, Bool, true, Option, none, some, List, is_some, ◌≡◌, refl, ◌∙◌, arith, if◌then◌else◌,
}
use splunk_firehose_nozzle.Base.Dict.{Dict, lookup}
use splunk_firehose_nozzle.Base.Result.{is_ok, Result, ok, err}
use splunk_firehose_nozzle.Events.Envelope.{Envelope, event_name}
use splunk_firehose_nozzle.Events.Annotate.{Config}
use splunk_firehose_nozzle.Events.Select.{SelectError, parse_selected_events, mem_text}
use splunk_firehose_nozzle.Events.Select.Laws.{
  wanted_names, all_authorized, is_ok-parse_selected_events, lookup-parse_selected_events,
}
use splunk_firehose_nozzle.Sink.Build.{SinkConfig}
use splunk_firehose_nozzle.Sink.Queue.{Queue, write}

-- The sink is the argument of `route`; the cache is passed on to nobody.
pub record Router : Type 0 where
  pub selected_events : Dict Bool
  pub config : Config

router_of : Config → Result SelectError (Dict Bool) → Result SelectError Router
router_of config (err e) = err e
router_of config (ok selected) = ok (record { selected_events = selected; config = config })

unfoldable pub new : (String → Option (List String)) → Config → Result SelectError Router
unfolding router_of
new decode config = router_of config (parse_selected_events decode config.selected_events)

-- The error of the sink's Write is ignored; `none` is its panic.
unfoldable pub route : SinkConfig → Router → Envelope → Queue Envelope → Option (Queue Envelope)
route sink_config r msg q =
    if is_some (lookup (event_name msg.event_type) r.selected_events)
    then write sink_config msg q
    else some q

router_of-selected :
    (config : Config) (found : Result SelectError (Dict Bool)) (r : Router)
    → router_of config found ≡ ok r
    → found ≡ ok r.selected_events
unfolding router_of
router_of-selected config (err e) r h = cc
router_of-selected config (ok selected) r h = ground arith

is_ok-router_of :
    (config : Config) (found : Result SelectError (Dict Bool))
    → is_ok (router_of config found) ≡ is_ok found
unfolding router_of
is_ok-router_of config (err e) = refl
is_ok-router_of config (ok selected) = refl

pub is_ok-new :
    (decode : String → Option (List String)) (config : Config)
    → is_ok (new decode config) ≡ all_authorized (wanted_names decode config.selected_events)
unfolding new
is_ok-new decode config =
    is_ok-router_of config (parse_selected_events decode config.selected_events)
    ∙ is_ok-parse_selected_events decode config.selected_events

pub lookup-new :
    (decode : String → Option (List String)) (config : Config) (r : Router) (k : String)
    → new decode config ≡ ok r
    → lookup k r.selected_events
      ≡ (if mem_text k (wanted_names decode config.selected_events) then some true else none)
unfolding new
lookup-new decode config r k h =
    lookup-parse_selected_events decode config.selected_events r.selected_events k
      (router_of-selected config (parse_selected_events decode config.selected_events) r h)

-- A router that was made of a configuration writes an envelope to the sink if the user's text asks
-- for the name of its type, and leaves the sink as it is otherwise.
pub route-new :
    (decode : String → Option (List String)) (config : Config) (sink_config : SinkConfig)
    (r : Router) (msg : Envelope) (q : Queue Envelope)
    → new decode config ≡ ok r
    → route sink_config r msg q ≡ (
        if mem_text (event_name msg.event_type) (wanted_names decode config.selected_events)
        then write sink_config msg q
        else some q)
unfolding route
route-new decode config sink_config r msg q h =
    ground (arith, lookup-new decode config r (event_name msg.event_type) h)
