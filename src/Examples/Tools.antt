-- ===== src/Examples/Tools.antt =====
-- The theorems about the tools at concrete inputs.
use splunk_firehose_nozzle.Base.{String, none, some, [], ◌∷◌, ◌≡◌, refl, ltb, if◌then◌else◌, arith}
use splunk_firehose_nozzle.Base.Int.{pos, negsuc, div_ℤ}
use splunk_firehose_nozzle.Base.Dict.{Dict, insert}
use splunk_firehose_nozzle.Base.Result.{ok, err}
use splunk_firehose_nozzle.Cache.Boltdb.{Storage, get_all_apps, copy_apps}
use splunk_firehose_nozzle.Cache.Boltdb.Lifetime.{
  open_boltdb, make_bucket, get_all_apps_from_boltdb, decode_all, populate_cache, background_loops,
  close_boltdb,
}
use splunk_firehose_nozzle.Tools.DataGen.{
  GenConfig, generating, generated, get_config, start_ticker, gen_loop,
}
use splunk_firehose_nozzle.Tools.DataGen.Lines.{ids, gen_loop-ids}
use splunk_firehose_nozzle.Tools.DumpAppInfo.{
  no_client, finished, open_logs, open_without_logger, dump_app_info,
}
use splunk_firehose_nozzle.Examples.Cache.{memory, online}

abbrev three : GenConfig
three = record { eps = pos 10; total_events = pos 3 }

gen_loop-ids_example :
    gen_loop three 5 ≡ (if ltb 5 3 then generating 5 (ids 5) else generated (ids 3))
gen_loop-ids_example = gen_loop-ids three 2 5 refl (omega arith)

-- Ten lines in a second; none at all, or more than there are nanoseconds, panics.
ten_a_second : start_ticker three ≡ some (pos 100000000)
unfolding start_ticker div_ℤ
ten_a_second = refl

none_a_second : start_ticker (record three { eps = pos 0 }) ≡ none
unfolding start_ticker div_ℤ
none_a_second = refl

backwards : start_ticker (record three { eps = negsuc 4 }) ≡ none
unfolding start_ticker div_ℤ
backwards = refl

too_many : start_ticker (record three { eps = pos 2000000000 }) ≡ none
unfolding start_ticker div_ℤ
too_many = refl

no_environment :
    get_config (λ text. none) (λ name. "") ≡ record { eps = pos 10; total_events = pos 0 }
unfolding get_config
no_environment = refl

not_connected :
    dump_app_info memory (err "no client") (pos 1) "cache.db" ≡ some (no_client "no client")
unfolding dump_app_info
not_connected = refl

abbrev one_app : Dict String
one_app = ("app-7", "app-7") ∷ []

-- A memory that is found with that app in it.
abbrev used : Storage
used = record memory { open_db = λ path. ok one_app }

one_dumped : dump_app_info used (ok online) (pos 1) "cache.db" ≡ some (finished 1)
unfolding dump_app_info open_without_logger open_logs make_bucket open_boltdb
    get_all_apps_from_boltdb decode_all populate_cache insert background_loops close_boltdb
    get_all_apps copy_apps
one_dumped = refl

none_held : dump_app_info memory (ok online) (pos 1) "cache.db" ≡ none
unfolding dump_app_info open_without_logger open_logs make_bucket get_all_apps_from_boltdb
    decode_all
none_held = refl
