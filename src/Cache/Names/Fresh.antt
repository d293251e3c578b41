-- ===== src/Cache/Names/Fresh.antt =====
-- When fillOrgAndSpace asks the API, and that it leaves the rest of an app alone.
use splunk_firehose_nozzle.Base.{String, false, some, ◌≡◌, refl}
use splunk_firehose_nozzle.Base.Int.{ℤ}
use splunk_firehose_nozzle.Base.Dict.{lookup}
use splunk_firehose_nozzle.Base.Result.{Result, ok, err}
use splunk_firehose_nozzle.Cache.App.{App}
use splunk_firehose_nozzle.Cache.Names.{
  AppClient, Org, Space, NameCaches, expired, with_org, with_space, fill_org_and_space,
}

-- Where the space of an app and the org of that space are cached and not older than the time to live,
-- the app gets the cached names, the caches stay as they are, and the API has no part in it.
fill_org_and_space_fresh :
    (ttl now : ℤ) (client : AppClient) (app : App) (s : NameCaches) (space : Space) (org : Org)
    → lookup app.space_guid s.spaces ≡ some space
    → expired ttl now space.last_updated ≡ false
    → lookup space.org_guid s.orgs ≡ some org
    → expired ttl now org.last_updated ≡ false
    → fill_org_and_space ttl client now app s
      ≡ (record app { space_name = space.name; org_guid = space.org_guid; org_name = org.name }, s)
unfolding fill_org_and_space
fill_org_and_space_fresh ttl now client app s space org hs fs ho fo =
    rw (hs, fill_org_and_space) (rw (fs) (rw (ho) (rw (fo))))

with_org-guid :
    (app : App) (r : Result String Org × NameCaches) → (with_org app r).0.guid ≡ app.guid
unfolding with_org
with_org-guid app (err e, s) = refl
with_org-guid app (ok org, s) = refl

with_space-guid :
    (ttl : ℤ) (client : AppClient) (now : ℤ) (app : App) (r : Result String Space × NameCaches)
    → (with_space ttl client now app r).0.guid ≡ app.guid
unfolding with_space
with_space-guid ttl client now app (err e, s) = refl
with_space-guid ttl client now app (ok space, s) = with_org-guid _ _

pub fill_org_and_space-guid :
    (ttl : ℤ) (client : AppClient) (now : ℤ) (app : App) (s : NameCaches)
    → (fill_org_and_space ttl client now app s).0.guid ≡ app.guid
unfolding fill_org_and_space
fill_org_and_space-guid ttl client now app s = with_space-guid ttl client now app _
