-- ===== src/Utils/Host.antt =====
-- GetHostIPInfo of utils/utils.go.
use splunk_firehose_nozzle.Base.{String, Option, none, some, List, [], ◌∷◌, ◌==◌, if◌then◌else◌}
use splunk_firehose_nozzle.Base.Result.{Result, ok, err}

-- What os.Hostname and net.LookupIP answer.
pub record Network : Type 0 where
  pub hostname : Result String String
  pub lookup_ip : String → Result String (List String)

-- the hostname, its address, and the error
abbrev pub HostInfo : Type 0
HostInfo = String × String × Option String

address_of : String → Result String (List String) → HostInfo
address_of hostname (err e) = (hostname, "", some e)
address_of hostname (ok []) = (hostname, "", none)
address_of hostname (ok (ip ∷ ips)) = (hostname, ip, none)

own_host : Network → String → Result String String → HostInfo
unfolding address_of
own_host network host (err e) = (host, "", some e)
own_host network host (ok hostname) = address_of hostname (network.lookup_ip hostname)

unfoldable pub get_host_ip_info : Network → String → HostInfo
unfolding own_host address_of
get_host_ip_info network host =
    if host == ""
    then own_host network host network.hostname
    else address_of host (network.lookup_ip host)
