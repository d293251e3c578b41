-- ===== src/Examples/Json.antt =====
-- The theorems about the JSON of an app at concrete inputs.
use splunk_firehose_nozzle.Base.{String, true, Option, none, some, List, [], ◌∷◌, ◌≡◌, refl}
use splunk_firehose_nozzle.Base.Dict.{lookup}
use splunk_firehose_nozzle.Base.Result.{Result, ok}
use splunk_firehose_nozzle.Value.{Value, str}
use splunk_firehose_nozzle.Cache.App.{App}
use splunk_firehose_nozzle.Cache.Json.{zero_app, unmarshal_json, marshal_json}
use splunk_firehose_nozzle.Cache.Json.Laws.{Piece, brace, text, any}
use splunk_firehose_nozzle.Cache.Json.Total.{unmarshal_json_returns}
use splunk_firehose_nozzle.Cache.Json.RoundTrip.{unmarshal_json-marshal_json}
use splunk_firehose_nozzle.Examples.World.{noisy_app}
use splunk_firehose_nozzle.Examples.Pieces.{piece_lexer, piece_writer}
use splunk_firehose_nozzle.Examples.Pieces.Laws.{
  piece_lexer-MovesForward, piece_reads, piece_writes,
}

abbrev marshal_any : Value → Result String (List Piece)
marshal_any v = ok (any v ∷ [])

abbrev opted_out : App
opted_out = record noisy_app { cf_app_env = ("F2S_DISABLE_LOGGING", str "true") ∷ [] }

-- an object that breaks off behind a key
abbrev broken_off : List Piece
broken_off = brace b'{' ∷ text "Name" ∷ []

unmarshal_json_returns_example :
    (app : App) × (e : Option String) × (unmarshal_json piece_lexer broken_off zero_app
      ≡ some (app, e))
unmarshal_json_returns_example =
    unmarshal_json_returns piece_lexer piece_lexer-MovesForward broken_off zero_app

unmarshal_json-marshal_json_example :
    (d : List Piece) × (marshal_json piece_writer marshal_any true opted_out ≡ ok d)
    × (unmarshal_json piece_lexer d zero_app ≡ some (opted_out, none))
unfolding lookup
unmarshal_json-marshal_json_example =
    unmarshal_json-marshal_json piece_lexer piece_reads marshal_any piece_writer piece_writes true
      opted_out (refl, tt) ((any (str "true") ∷ [], refl, refl), tt)
