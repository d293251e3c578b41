-- ===== src/Splunknozzle/Config/Secrets.antt =====
-- What the log of the configuration does not show.
use splunk_firehose_nozzle.Base.{ℕ, String, ◌≡◌, refl}
use splunk_firehose_nozzle.Base.Int.{ℤ}
use splunk_firehose_nozzle.Splunknozzle.Config.{Config, to_map}

-- The credentials are in no way in the map that is logged: another user, password, client id, client
-- secret and token give the same map.
pub to_map_secrets :
    (to_float : ℤ → ℕ) (c : Config) (user password client_id client_secret token : String)
    → to_map to_float (record c {
      user = user;
      password = password;
      client_id = client_id;
      client_secret = client_secret;
      splunk_token = token;
    })
      ≡ to_map to_float c
unfolding to_map
to_map_secrets to_float c user password client_id client_secret token = refl
