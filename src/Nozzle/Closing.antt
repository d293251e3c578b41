-- ===== src/Nozzle/Closing.antt =====
-- nozzle/nozzle.go: New, Start and Close as goroutines that share the channels closing and closed.
pub mod Returns
use splunk_firehose_nozzle.Base.{String, Bool, true, false, none, [], ◌&&◌, ◌≡◌}
use splunk_firehose_nozzle.Nozzle.{
  Choice, closing, NozzleLoop, RouteFn, Progress, running, returned, report_count, take_choice,
}

-- Where Start is: not called, returned as the source did not open, in its loop, or returned from it.
pub data StartState (R : Type 0) : Type 0 where
  not_started : StartState R
  unopened : String → StartState R
  looping : NozzleLoop R → StartState R
  ended : NozzleLoop R → StartState R

-- Where Close is: not called, returned with the error of the source, at <-f.closed, or returned nil.
pub data CloseState : Type 0 where
  not_called : CloseState
  close_failed : String → CloseState
  waits : CloseState
  close_done : CloseState

-- Both goroutines, and which of the channels is closed.
pub record Shared (R : Type 0) : Type 0 where
  pub at_start : StartState R
  pub at_close : CloseState
  pub closing_closed : Bool
  pub closed_closed : Bool

-- New
abbrev pub new_shared : {R : Type 0} → Shared R
new_shared = record {
  at_start = not_started;
  at_close = not_called;
  closing_closed = false;
  closed_closed = false;
}

-- The select can take <-f.closing only when the channel is closed.
abbrev pub can_choose : {R : Type 0} → Choice → Shared R → Bool
can_choose closing s = s.closing_closed
can_choose _ s = true

module _ {R : Type 0} (route : RouteFn R) (monitored : Bool) where
  -- One step of either goroutine. Start closes f.closed when its loop returns, by the defer that comes
  -- behind the check of eventSource.Open.
  pub data CloseStep (s : Shared R) : Shared R → Type 0 where
    open_fails :
        (e : String) → s.at_start ≡ not_started → CloseStep s (record s { at_start = unopened e })
    opens :
        (r : R)
        → s.at_start ≡ not_started
        → CloseStep s (record s {
          at_start =
              looping (record { router = r; last_error = none; received_count = 0; log = [] });
        })
    turns :
        (due : Bool) (chosen : Choice) (l l' : NozzleLoop R)
        → s.at_start ≡ looping l
        → can_choose chosen s ≡ true
        → take_choice route monitored chosen (report_count (monitored && due) l) ≡ running l'
        → CloseStep s (record s { at_start = looping l' })
    returns :
        (due : Bool) (chosen : Choice) (l l' : NozzleLoop R)
        → s.at_start ≡ looping l
        → can_choose chosen s ≡ true
        → take_choice route monitored chosen (report_count (monitored && due) l) ≡ returned l'
        → CloseStep s (record s { at_start = ended l'; closed_closed = true })
    source_not_closed :
        (e : String)
        → s.at_close ≡ not_called
        → CloseStep s (record s { at_close = close_failed e })
    source_closed :
        s.at_close ≡ not_called → CloseStep s (record s { at_close = waits; closing_closed = true })
    close_returns :
        s.at_close ≡ waits
        → s.closed_closed ≡ true
        → CloseStep s (record s { at_close = close_done })

  pub data CloseRun (s : Shared R) : Shared R → Type 0 where
    idle : CloseRun s s
    next : {s' s'' : Shared R} → CloseRun s s' → CloseStep s' s'' → CloseRun s s''
