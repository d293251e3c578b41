-- ===== src/Examples/Logging.antt =====
-- The theorem about the sink's status at a concrete input.
use splunk_firehose_nozzle.Base.{
  ℕ, ◌+◌, true, false, none, some, List, [], ◌∷◌, ◌≡◌, total, ltb, arith,
}
use splunk_firehose_nozzle.Base.Int.{pos, pos_part}
use splunk_firehose_nozzle.Sink.Status.{Floats, StatusTurn, status_turn, StatusLoop, run_status}
use splunk_firehose_nozzle.Sink.Status.Sent.{received_in, sent_by, sent_by-run_status}

-- Whole numbers in place of floats.
abbrev whole : Floats
whole = record {
  F = ℕ;
  of_int = pos_part;
  divided = λ a b. a;
  times = λ a b. a;
  exceeds = λ a b. ltb b a;
  to_int = λ a. pos a;
  hundred = 100;
  most = 99;
  ninety = 90;
  fifty = 50;
}

abbrev status_turns : List StatusTurn
status_turns =
    status_turn false 1 (some 4) ∷ status_turn true 2 (some 3) ∷ status_turn true 0 none ∷ []

abbrev quiet : StatusLoop
quiet = record { sent = 0; log = [] }

sent_by-run_status_example :
    sent_by (run_status whole (pos 10) status_turns quiet)
    ≡ sent_by quiet + total received_in status_turns
sent_by-run_status_example = sent_by-run_status whole (pos 10) status_turns quiet (omega arith)
