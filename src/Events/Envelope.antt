-- ===== src/Events/Envelope.antt =====
-- The envelope of the firehose as the nozzle reads it. The types are those of sonde-go; a field is
-- what its getter returns, so a message that is absent reads as zeros, and an enumeration is the name
-- that its String method gives. The types are the program's interface to that package.
use splunk_firehose_nozzle.Base.{ℕ, String, List, Option}
use splunk_firehose_nozzle.Base.Int.{ℤ}
use splunk_firehose_nozzle.Utils.Decimal.{format_uint}

-- A UUID: two unsigned 64-bit halves.
pub record Uuid : Type 0 where
  pub low : ℕ
  pub high : ℕ

pub data EventType : Type 0 where
  http_start http_stop http_start_stop log_message value_metric counter_event error
        container_metric :
      EventType
  unknown : ℕ → EventType

-- The name of an event type; a number without a name is printed in decimal.
unfoldable pub event_name : EventType → String
unfolding format_uint
event_name http_start = "HttpStart"
event_name http_stop = "HttpStop"
event_name http_start_stop = "HttpStartStop"
event_name log_message = "LogMessage"
event_name value_metric = "ValueMetric"
event_name counter_event = "CounterEvent"
event_name error = "Error"
event_name container_metric = "ContainerMetric"
event_name (unknown n) = format_uint n

pub record HttpStart : Type 0 where
  pub timestamp : ℤ
  pub request_id : Option Uuid
  pub method : String
  pub uri : String
  pub remote_address : String
  pub user_agent : String
  pub parent_request_id : Option Uuid
  pub application_id : Option Uuid
  pub instance_index : ℤ
  pub instance_id : String

pub record HttpStop : Type 0 where
  pub timestamp : ℤ
  pub uri : String
  pub request_id : Option Uuid
  pub peer_type : String
  pub status_code : ℤ
  pub content_length : ℤ
  pub application_id : Option Uuid

pub record HttpStartStop : Type 0 where
  pub start_timestamp : ℤ
  pub stop_timestamp : ℤ
  pub request_id : Option Uuid
  pub peer_type : String
  pub method : String
  pub uri : String
  pub remote_address : String
  pub user_agent : String
  pub status_code : ℤ
  pub content_length : ℤ
  pub application_id : Option Uuid
  pub instance_index : ℤ
  pub instance_id : String
  pub forwarded : List String

pub record LogMessage : Type 0 where
  pub message : String
  pub message_type : String
  pub timestamp : ℤ
  pub app_id : String
  pub source_type : String
  pub source_instance : String

pub record ValueMetric : Type 0 where
  pub name : String
  pub value : ℕ
  pub unit : String

pub record CounterEvent : Type 0 where
  pub name : String
  pub delta : ℕ
  pub total : ℕ

pub record ErrorEvent : Type 0 where
  pub source : String
  pub code : ℤ
  pub message : String

pub record ContainerMetric : Type 0 where
  pub application_id : String
  pub instance_index : ℤ
  pub cpu_percentage : ℕ
  pub memory_bytes : ℕ
  pub disk_bytes : ℕ
  pub memory_bytes_quota : ℕ
  pub disk_bytes_quota : ℕ

pub record Envelope : Type 0 where
  pub origin : String
  pub event_type : EventType
  pub deployment : String
  pub job : String
  pub index : String
  pub ip : String
  pub tags : List (String × String)
  pub http_start : HttpStart
  pub http_stop : HttpStop
  pub http_start_stop : HttpStartStop
  pub log_message : LogMessage
  pub value_metric : ValueMetric
  pub counter_event : CounterEvent
  pub error : ErrorEvent
  pub container_metric : ContainerMetric
