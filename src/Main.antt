-- ===== src/Main.antt =====
-- main.go: the process that runs the nozzle, with what it logs.
use splunk_firehose_nozzle.Base.{
  String, Bool, Option, none, some, List, [], ◌∷◌, ◌++◌, ◌&&◌, not, if◌then◌else◌,
}
use splunk_firehose_nozzle.Base.Int.{pos, ltb_ℤ}
use splunk_firehose_nozzle.Cache.Boltdb.Lifetime.{is_set}
use splunk_firehose_nozzle.Splunknozzle.Config.{Config, CommandLine, new_config_from_cmd_flags}
use splunk_firehose_nozzle.Splunknozzle.Run.{Environment, Act, RunError, run}

-- The variables that the linker sets.
pub record Build : Type 0 where
  pub version : String
  pub branch : String
  pub commit : String
  pub buildos : String

pub data Entry : Type 0 where
  running : Entry
  apps_not_cached : Entry
  failed : RunError → Entry

-- config.AppCacheTTL == 0 && config.OrgSpaceCacheTTL > 0
abbrev pub warns : Config → Bool
warns c = not (is_set c.app_cache_ttl) && ltb_ℤ (pos 0) c.org_space_cache_ttl

abbrev pub failures : Option RunError → List Entry
failures none = []
failures (some e) = failed e ∷ []

-- What is logged, and what Run opens and closes.
unfoldable pub main : CommandLine → Build → Environment → List Entry × List Act
main line build env =
    let config =
      new_config_from_cmd_flags line build.version build.branch build.commit build.buildos in
    let (acts, e) = run env config in
    (running ∷ ((if warns config then apps_not_cached ∷ [] else []) ++ failures e), acts)
