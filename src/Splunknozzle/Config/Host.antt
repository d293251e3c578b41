-- ===== src/Splunknozzle/Config/Host.antt =====
-- The address of the HTTP event collector.
use splunk_firehose_nozzle.Base.{String}
use splunk_firehose_nozzle.Utils.Text.{trim_space}
use splunk_firehose_nozzle.Utils.Text.Slashes.{IsTrimmed, trim_slashes-IsTrimmed}
use splunk_firehose_nozzle.Splunknozzle.Config.{CommandLine, flags, new_config_from_cmd_flags}

-- The host of a configuration is the text of its flag without the blanks around it and without the
-- slashes behind that: it does not end in a slash, and nothing but slashes is cut off.
pub new_config_from_cmd_flags-IsTrimmed :
    (line : CommandLine) (version branch commit build_os : String)
    → IsTrimmed
        (trim_space (line.text flags "splunk-host"))
        (new_config_from_cmd_flags line version branch commit build_os).splunk_host
unfolding new_config_from_cmd_flags
new_config_from_cmd_flags-IsTrimmed line version branch commit build_os =
    trim_slashes-IsTrimmed (trim_space (line.text flags "splunk-host"))
