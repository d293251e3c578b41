-- ===== src/Examples/Utils.antt =====
-- The text of a UUID at a concrete input.
use splunk_firehose_nozzle.Base.{some, ◌≡◌, arith}
use splunk_firehose_nozzle.Events.Envelope.{Uuid}
use splunk_firehose_nozzle.Utils.Uuid.{format_uuid}
use splunk_firehose_nozzle.Utils.Uuid.Reading.{read_uuid, read_uuid-format_uuid}

abbrev some_uuid : Uuid
some_uuid = record { low = 0x7243cc580bc17af4; high = 0x79d4c3b2020e67a5 }

read_uuid-format_uuid_example : read_uuid (format_uuid (some some_uuid)) ≡ some_uuid
read_uuid-format_uuid_example = read_uuid-format_uuid some_uuid (omega arith) (omega arith)
