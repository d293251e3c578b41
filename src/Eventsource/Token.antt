-- ===== src/Eventsource/Token.antt =====
-- The token that the firehose is given.
use splunk_firehose_nozzle.Base.{String, ◌≡◌, ◌≢◌, ◌↔◌, refl, arith, eq_iff}
use splunk_firehose_nozzle.Base.Result.{Result, ok, err}
use splunk_firehose_nozzle.Eventsource.{check_token, refresh_auth_token}

module _ {C : Type 0} (get_token : C → Result String String × C) where
  check_token-ok :
      (answer : Result String String) (token : String)
      → (check_token get_token answer ≡ ok token) ↔ ((answer ≡ ok token) × (token ≢ ""))
  unfolding check_token
  check_token-ok (err e) token = (λ h. absurd (ground arith), λ h. absurd (ground arith))
  check_token-ok (ok t) token = (λ h. ground (arith, eq_iff t ""), λ h. ground (arith, eq_iff t ""))

  -- RefreshAuthToken returns a token exactly if the client answered with that token and it is not
  -- empty, and it asks the client once.
  refresh_auth_token-ok :
      (c : C) (token : String)
      → (((refresh_auth_token get_token c).0 ≡ ok token)
          ↔ (((get_token c).0 ≡ ok token) × (token ≢ "")))
        × ((refresh_auth_token get_token c).1 ≡ (get_token c).1)
  unfolding refresh_auth_token
  refresh_auth_token-ok c token = (check_token-ok (get_token c).0 token, refl)
