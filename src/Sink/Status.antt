-- ===== src/Sink/Status.antt =====
-- LogStatus: how full the queue is, and how many events were sent, at every interval.
pub mod Sent
use splunk_firehose_nozzle.Base.{
  ℕ, ◌+◌, ◌%◌, ◌^◌, String, Bool, Option, none, some, List, [], ◌∷◌, ◌++◌, if◌then◌else◌,
}
use splunk_firehose_nozzle.Base.Int.{ℤ, pos}

-- float64 and what LogStatus does with it.
pub record Floats : Type 1 where
  pub F : Type 0
  pub of_int : ℤ → F
  pub divided : F → F → F
  pub times : F → F → F
  pub exceeds : F → F → Bool
  pub to_int : F → ℤ
  pub hundred : F
  pub most : F
  pub ninety : F
  pub fifty : F

-- What is logged: the number of events in the queue, the percentage and the status; and the number of
-- events that were sent.
pub data StatusEntry : Type 0 where
  queue_pressure : ℕ → ℤ → String → StatusEntry
  event_count_sent : ℕ → StatusEntry

-- One turn of the loop: is the timer due, how many events are in the queue, and the count that is
-- received, if one is there.
pub data StatusTurn : Type 0 where
  status_turn : Bool → ℕ → Option ℕ → StatusTurn

pub record StatusLoop : Type 0 where
  pub sent : ℕ
  pub log : List StatusEntry

-- `most` is 99.9.
unfoldable status_of : (fl : Floats) → fl.F → String
status_of fl percent =
    if fl.exceeds percent fl.most
    then "too high"
    else if fl.exceeds percent fl.ninety
    then "high"
    else if fl.exceeds percent fl.fifty
    then "medium"
    else "low"

unfoldable pub pressure : (fl : Floats) → ℕ → ℤ → StatusEntry
unfolding status_of
pressure fl waiting queue_size =
    let percent =
      fl.times (fl.divided (fl.of_int (pos waiting)) (fl.of_int queue_size)) fl.hundred in
    queue_pressure waiting (fl.to_int percent) (status_of fl percent)

unfoldable pub log_status : Floats → ℤ → Bool → ℕ → StatusLoop → StatusLoop
log_status fl queue_size due waiting s =
    if due
    then record {
      sent = 0;
      log = s.log ++ pressure fl waiting queue_size ∷ event_count_sent s.sent ∷ [];
    }
    else s

unfoldable pub add_sent : Option ℕ → StatusLoop → StatusLoop
add_sent none s = s
add_sent (some count) s = record s { sent = (s.sent + count) % 2 ^ 64 }

-- LogStatus never returns: what it has done after the given turns.
unfoldable pub run_status : Floats → ℤ → List StatusTurn → StatusLoop → StatusLoop
run_status fl queue_size [] s = s
run_status fl queue_size (status_turn due waiting count ∷ turns) s =
    run_status fl queue_size turns (add_sent count (log_status fl queue_size due waiting s))
