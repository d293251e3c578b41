-- ===== src/Utils/Json.antt =====
-- ToJson of utils/utils.go. Package encoding/json's decoder is a parameter: the map or the array that
-- a text holds, or nothing if the text is not one.
use splunk_firehose_nozzle.Base.{String, ◌&&◌, Option, none, some, if◌then◌else◌}
use splunk_firehose_nozzle.Value.{Value, Items, Fields, str, arr, obj}
use splunk_firehose_nozzle.Utils.Text.{trim_space, starts_with, ends_with}

pub record Decoder : Type 0 where
  pub object : String → Option Fields
  pub array : String → Option Items

-- the message itself where the decoder fails
abbrev or_message {ℓ} : {A : Type ℓ} → (A → Value) → String → Option A → Value
or_message wrap msg none = str msg
or_message wrap msg (some a) = wrap a

unfoldable pub to_json : Decoder → String → Value
to_json json msg =
    let trimmed = trim_space msg in
    if starts_with trimmed b'{' && ends_with trimmed b'}'
    then or_message obj msg (json.object trimmed)
    else if starts_with trimmed b'[' && ends_with trimmed b']'
    then or_message arr msg (json.array trimmed)
    else str msg
