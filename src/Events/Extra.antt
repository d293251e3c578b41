-- ===== src/Events/Extra.antt =====
-- Extra fields that the user adds to every event: ParseExtraFields of events/events.go.
pub mod Laws
use splunk_firehose_nozzle.Base.{String, List, [], ◌∷◌, ◌==◌, if◌then◌else◌}
use splunk_firehose_nozzle.Base.Dict.{Dict, insert}
use splunk_firehose_nozzle.Base.Result.{Result, ok, err, ◌>>=◌}
use splunk_firehose_nozzle.Utils.Text.{trim_space, split}

-- A pair that does not split in two at its colons, with what it splits into.
pub data ExtraError : Type 0 where
  not_a_pair : String → List String → ExtraError

unfoldable pair_of : String → List String → Result ExtraError (String × String)
pair_of kv_pair (k ∷ v ∷ []) = ok (trim_space k, trim_space v)
pair_of kv_pair values = err (not_a_pair kv_pair values)

unfoldable pub get_key_value_from_string : String → Result ExtraError (String × String)
unfolding pair_of
get_key_value_from_string kv_pair = pair_of kv_pair (split b':' kv_pair)

-- The loop over the parts; a part that is empty is skipped.
unfoldable pub add_pairs : List String → Dict String → Result ExtraError (Dict String)
add_pairs [] extra_events = ok extra_events
add_pairs (kv_pair ∷ rest) extra_events =
    let skipped = add_pairs rest extra_events in
    let parsed : Result ExtraError (Dict String) =
      get_key_value_from_string (trim_space kv_pair) >>= λ (p : String × String).
      add_pairs rest (insert p.0 p.1 extra_events) in
    if kv_pair == "" then skipped else parsed

unfoldable pub parse_extra_fields : String → Result ExtraError (Dict String)
parse_extra_fields extra_events_string = add_pairs (split b',' extra_events_string) []
