-- ===== src/Cache/Names.antt =====
-- The names of orgs and spaces: fillOrgAndSpace of cache/boltdb.go, with the two maps it keeps.
pub mod Fresh
use splunk_firehose_nozzle.Base.{String, Bool, Option, none, some, if◌then◌else◌, List}
use splunk_firehose_nozzle.Base.Int.{ℤ, ◌-ℤ◌, ltb_ℤ}
use splunk_firehose_nozzle.Base.Dict.{Dict, lookup, insert}
use splunk_firehose_nozzle.Base.Result.{Result, ok, err}
use splunk_firehose_nozzle.Value.{Value}
use splunk_firehose_nozzle.Cache.App.{App}

-- What the nozzle reads of the answers of the Cloud Foundry API.
pub record CfApp : Type 0 where
  pub name : String
  pub guid : String
  pub space_guid : String
  pub environment : Dict Value

pub record CfSpace : Type 0 where
  pub name : String
  pub organization_guid : String

pub record CfOrg : Type 0 where
  pub name : String

-- The arguments of a listing of all apps.
pub record Query : Type 0 where
  pub values : Dict String
  pub total_pages : ℤ

-- AppClient: the answers of the API during one call. Another call may meet other answers.
pub record AppClient : Type 0 where
  pub app_by_guid : String → Result String CfApp
  pub list_apps : Query → Result String (List CfApp)
  pub get_space_by_guid : String → Result String CfSpace
  pub get_org_by_guid : String → Result String CfOrg

pub record Org : Type 0 where
  pub name : String
  pub last_updated : ℤ

pub record Space : Type 0 where
  pub name : String
  pub org_guid : String
  pub last_updated : ℤ

pub record NameCaches : Type 0 where
  pub orgs : Dict Org
  pub spaces : Dict Space

-- now.Sub(last) > ttl
abbrev pub expired : ℤ → ℤ → ℤ → Bool
expired ttl now last = ltb_ℤ ttl (now -ℤ last)

unfoldable pub store_space :
    ℤ → String → Result String CfSpace → NameCaches → Result String Space × NameCaches
store_space now guid (err e) s = (err e, s)
store_space now guid (ok cf) s =
    let space : Space = record {
      name = cf.name;
      org_guid = cf.organization_guid;
      last_updated = now;
    } in
    (ok space, record s { spaces = insert guid space s.spaces })

-- The cached space, or a new one where there is none or it is too old.
unfoldable pub space_from :
    ℤ → AppClient → ℤ → String → Option Space → NameCaches → Result String Space × NameCaches
unfolding store_space
space_from ttl client now guid none s = store_space now guid (client.get_space_by_guid guid) s
space_from ttl client now guid (some space) s =
    if expired ttl now space.last_updated
    then store_space now guid (client.get_space_by_guid guid) s
    else (ok space, s)

unfoldable pub store_org :
    ℤ → String → Result String CfOrg → NameCaches → Result String Org × NameCaches
store_org now guid (err e) s = (err e, s)
store_org now guid (ok cf) s =
    let org : Org = record { name = cf.name; last_updated = now } in
    (ok org, record s { orgs = insert guid org s.orgs })

unfoldable pub org_from :
    ℤ → AppClient → ℤ → String → Option Org → NameCaches → Result String Org × NameCaches
unfolding store_org
org_from ttl client now guid none s = store_org now guid (client.get_org_by_guid guid) s
org_from ttl client now guid (some org) s =
    if expired ttl now org.last_updated
    then store_org now guid (client.get_org_by_guid guid) s
    else (ok org, s)

-- The second half: the name of the org, if it is to be had.
unfoldable pub with_org : App → Result String Org × NameCaches → App × NameCaches
with_org app (err e, s) = (app, s)
with_org app (ok org, s) = (record app { org_name = org.name }, s)

unfoldable pub with_space :
    ℤ → AppClient → ℤ → App → Result String Space × NameCaches → App × NameCaches
unfolding org_from with_org
with_space ttl client now app (err e, s) = (app, s)
with_space ttl client now app (ok space, s) =
    with_org (record app { space_name = space.name; org_guid = space.org_guid })
      (org_from ttl client now space.org_guid (lookup space.org_guid s.orgs) s)

-- The app with the names filled in as far as they are to be had; all callers ignore the error.
unfoldable pub fill_org_and_space : ℤ → AppClient → ℤ → App → NameCaches → App × NameCaches
unfolding with_space space_from
fill_org_and_space ttl client now app s =
    with_space ttl client now app
      (space_from ttl client now app.space_guid (lookup app.space_guid s.spaces) s)
