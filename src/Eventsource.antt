-- ===== src/Eventsource.antt =====
-- eventsource/firehose.go. The consumer of the firehose is noaa's: NewFirehose and Read call it.
pub mod Token
use splunk_firehose_nozzle.Base.{String, Bool, Option, none, some, ◌==◌, if◌then◌else◌}
use splunk_firehose_nozzle.Base.Int.{ℤ}
use splunk_firehose_nozzle.Base.Result.{Result, ok, err}

pub record FirehoseConfig : Type 0 where
  pub keep_alive : ℤ
  pub skip_ssl : Bool
  pub endpoint : String
  pub subscription_id : String

pub data TokenError : Type 0 where
  client_failed : String → TokenError
  empty_token : TokenError

-- `C` is the state behind the token client, and the argument its GetToken.
module _ {C : Type 0} (get_token : C → Result String String × C) where
  check_token : Result String String → Result TokenError String
  check_token (err e) = err (client_failed e)
  check_token (ok token) = if token == "" then err empty_token else ok token

  unfoldable pub refresh_auth_token : C → Result TokenError String × C
  unfolding check_token
  refresh_auth_token c = let (answer, c') = get_token c in (check_token answer, c')

-- The consumer of noaa: how it is made of an endpoint and the choice to skip the check of certificates,
-- its idle timeout, its Close, and the streams of its Firehose for a subscription and a token.
pub record ConsumerApi (Consumer Streams : Type 0) : Type 0 where
  pub new_consumer : String → Bool → Consumer
  pub set_idle_timeout : ℤ → Consumer → Consumer
  pub close_consumer : Consumer → Option String × Consumer
  pub streams : String → String → Consumer → Streams × Consumer

pub record Firehose (Consumer : Type 0) : Type 0 where
  pub config : FirehoseConfig
  pub event_consumer : Consumer

-- The firehose refreshes the tokens of its consumer, by the function above.
module _ {Consumer Streams : Type 0} (api : ConsumerApi Consumer Streams) where
  unfoldable pub new_firehose : FirehoseConfig → Firehose Consumer
  new_firehose config = record {
    config = config;
    event_consumer =
        api.set_idle_timeout config.keep_alive (api.new_consumer config.endpoint config.skip_ssl);
  }

  unfoldable pub open_firehose : Firehose Consumer → Option String × Firehose Consumer
  open_firehose f = (none, f)

  unfoldable pub close_firehose : Firehose Consumer → Option String × Firehose Consumer
  close_firehose f =
      let (e, c) = api.close_consumer f.event_consumer in (e, record f { event_consumer = c })

  -- The token is empty, so that the consumer asks for one.
  unfoldable pub read : Firehose Consumer → Streams × Firehose Consumer
  read f =
      let (s, c) = api.streams f.config.subscription_id "" f.event_consumer in
      (s, record f { event_consumer = c })
