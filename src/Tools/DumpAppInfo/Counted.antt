-- ===== src/Tools/DumpAppInfo/Counted.antt =====
-- The number that dump_app_info reports.
use splunk_firehose_nozzle.Base.{ℕ, String, Option, none, some, [], ◌∷◌, length}
use splunk_firehose_nozzle.Base.Dict.{Dict}
use splunk_firehose_nozzle.Base.Result.{Result, ok, err}
use splunk_firehose_nozzle.Cache.App.{App, CacheError}
use splunk_firehose_nozzle.Cache.Boltdb.{Storage, Boltdb}
use splunk_firehose_nozzle.Tools.DumpAppInfo.{Dumped, not_opened, not_closed, finished}

module _ (st : Storage) where
  -- What the tool ends with behind Close, of so many apps.
  abbrev pub dumped_closed : ℕ → Option String → Dumped
  dumped_closed n none = finished n
  dumped_closed n (some e) = not_closed e

  -- What it ends with, by the apps that the database holds.
  abbrev pub dumped : st.Db → Result CacheError (Dict App) → Option Dumped
  dumped db (err e) = some (not_opened e)
  dumped db (ok []) = none
  dumped db (ok (a ∷ apps)) = some (dumped_closed (length (a ∷ apps)) (st.close_db db))
