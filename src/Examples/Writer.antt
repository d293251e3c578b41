-- ===== src/Examples/Writer.antt =====
-- The theorems about the writer at concrete inputs.
use splunk_firehose_nozzle.Base.{String, false, none, some, List, [], ◌∷◌, ◌≡◌, refl, Option, arith}
use splunk_firehose_nozzle.Base.Dict.{lookup, insert}
use splunk_firehose_nozzle.Value.{str, obj, done, field, entries}
use splunk_firehose_nozzle.Writer.{WriterConfig, Event, prepare, set_index, set_fields, body_of}
use splunk_firehose_nozzle.Writer.Index.{expected_index}
use splunk_firehose_nozzle.Writer.Frames.{WritesLines, read_events, read_events-body_of}

abbrev writer_config : WriterConfig
writer_config = record {
  host = "https://splunk:8088";
  token = "t";
  index = "main";
  fields = [];
  skip_ssl = false;
  debug = false;
  version = "1.3";
}

abbrev own_index : Event
own_index = ("event", obj (field "info_splunk_index" (str "team") done)) ∷ []

team_index :
    expected_index writer_config own_index (field "info_splunk_index" (str "team") done)
    ≡ some (str "team")
unfolding lookup entries
team_index = refl

abbrev prepared : Event
prepared = ("event", obj (field "info_splunk_index" (str "team") done)) ∷ ("index", str "team") ∷ []

is_prepared : prepare writer_config own_index ≡ some prepared
unfolding prepare set_index set_fields lookup insert entries
is_prepared = refl

-- An encoder that knows two events and fails on every other.
code_of : Event → Option String
code_of [] = some "{}"
code_of ((k, v) ∷ []) = some "{1}"
code_of _ = none

code_of-WritesLines : WritesLines code_of
unfolding code_of
code_of-WritesLines [] text h = rw (some_text h) (refl, (refl, (refl, tt)))
  where
    some_text : some "{}" ≡ some text → text ≡ "{}"
    some_text e = cc
code_of-WritesLines ((k, v) ∷ []) text h = rw (some_text h) (refl, (refl, (refl, (refl, tt))))
  where
    some_text : some "{1}" ≡ some text → text ≡ "{1}"
    some_text e = cc
code_of-WritesLines ((k, v) ∷ (j, w) ∷ rest) text h = absurd (ground arith)

abbrev batch : List Event
batch = own_index ∷ prepared ∷ [] ∷ []

read_events-body_of_example : read_events (body_of code_of batch) ≡ "{1}" ∷ "{}" ∷ []
unfolding code_of
read_events-body_of_example = read_events-body_of code_of batch code_of-WritesLines
