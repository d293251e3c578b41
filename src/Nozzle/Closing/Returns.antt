-- ===== src/Nozzle/Closing/Returns.antt =====
-- When Close returns, and what holds then.
use splunk_firehose_nozzle.Base.{String, Bool, true, false, ◌≡◌, ◌≢◌, ◌↔◌, refl, arith}
use splunk_firehose_nozzle.Nozzle.{closing, NozzleLoop, RouteFn, take_choice}
use splunk_firehose_nozzle.Nozzle.Closing.{
  StartState, not_started, unopened, looping, ended, waits, close_done, Shared, new_shared,
  CloseStep, open_fails, opens, turns, returns, source_not_closed, source_closed, close_returns,
  CloseRun, idle, next,
}

record IsConsistent {R : Type 0} (s : Shared R) : Type 0 where
  closed_ended : s.closed_closed ≡ true → (l : NozzleLoop R) × (s.at_start ≡ ended l)
  ended_closed : (l : NozzleLoop R) → s.at_start ≡ ended l → s.closed_closed ≡ true
  done_closed : s.at_close ≡ close_done → s.closed_closed ≡ true
  waits_closing : s.at_close ≡ waits → s.closing_closed ≡ true

module _ {R : Type 0} (route : RouteFn R) (monitored : Bool) where
  new_shared-IsConsistent : IsConsistent (new_shared {R = R})
  new_shared-IsConsistent = record {
    closed_ended = λ h. absurd (ground (arith, h));
    ended_closed = λ l h. absurd (ground (arith, h));
    done_closed = λ h. absurd (ground (arith, h));
    waits_closing = λ h. absurd (ground (arith, h));
  }

  CloseStep-IsConsistent :
      (s s' : Shared R) → CloseStep route monitored s s' → IsConsistent s → IsConsistent s'
  CloseStep-IsConsistent s s' (open_fails e at) i = record {
    closed_ended = λ h. let (l, e') = i.closed_ended h in absurd (ground (arith, at, e'));
    ended_closed = λ l h. absurd (ground (arith, h));
    done_closed = i.done_closed;
    waits_closing = i.waits_closing;
  }
  CloseStep-IsConsistent s s' (opens r at) i = record {
    closed_ended = λ h. let (l, e') = i.closed_ended h in absurd (ground (arith, at, e'));
    ended_closed = λ l h. absurd (ground (arith, h));
    done_closed = i.done_closed;
    waits_closing = i.waits_closing;
  }
  CloseStep-IsConsistent s s' (turns due chosen l l' at can ran) i = record {
    closed_ended = λ h. let (l, e') = i.closed_ended h in absurd (ground (arith, at, e'));
    ended_closed = λ l h. absurd (ground (arith, h));
    done_closed = i.done_closed;
    waits_closing = i.waits_closing;
  }
  CloseStep-IsConsistent s s' (returns due chosen l l' at can ran) i = record {
    closed_ended = λ h. (l', refl);
    ended_closed = λ l h. refl;
    done_closed = λ h. refl;
    waits_closing = i.waits_closing;
  }
  CloseStep-IsConsistent s s' (source_not_closed e at) i = record {
    closed_ended = i.closed_ended;
    ended_closed = i.ended_closed;
    done_closed = λ h. absurd (ground (arith, h));
    waits_closing = λ h. absurd (ground (arith, h));
  }
  CloseStep-IsConsistent s s' (source_closed at) i = record {
    closed_ended = i.closed_ended;
    ended_closed = i.ended_closed;
    done_closed = λ h. absurd (ground (arith, h));
    waits_closing = λ h. refl;
  }
  CloseStep-IsConsistent s s' (close_returns at was) i = record {
    closed_ended = i.closed_ended;
    ended_closed = i.ended_closed;
    done_closed = λ h. was;
    waits_closing = λ h. absurd (ground (arith, h));
  }

  CloseRun-IsConsistent :
      (s s' : Shared R) → CloseRun route monitored s s' → IsConsistent s → IsConsistent s'
  CloseRun-IsConsistent s s' idle i = i
  CloseRun-IsConsistent s s' (next run step) i =
      CloseStep-IsConsistent _ s' step (CloseRun-IsConsistent s _ run i)

  followed :
      (a b c : Shared R)
      → CloseRun route monitored a b
      → CloseRun route monitored b c
      → CloseRun route monitored a c
  followed a b c run idle = run
  followed a b c run (next more step) = next (followed a b _ run more) step

  -- A loop that has ended, or a source that did not open, stays.
  ended_stays :
      (l : NozzleLoop R) (s s' : Shared R)
      → CloseRun route monitored s s'
      → s.at_start ≡ ended l
      → s'.at_start ≡ ended l
  ended_stays l s s' idle e = e
  ended_stays l s s' (next run step) e = stepped step (ended_stays l s _ run e)
    where
      stepped :
          {a b : Shared R}
          → CloseStep route monitored a b
          → a.at_start ≡ ended l
          → b.at_start ≡ ended l
      stepped (open_fails _ at) h = absurd (ground (arith, at, h))
      stepped (opens _ at) h = absurd (ground (arith, at, h))
      stepped (turns _ _ _ _ at _ _) h = absurd (ground (arith, at, h))
      stepped (returns _ _ _ _ at _ _) h = absurd (ground (arith, at, h))
      stepped (source_not_closed _ _) h = h
      stepped (source_closed _) h = h
      stepped (close_returns _ _) h = h

  unopened_stays :
      (why : String) (s s' : Shared R)
      → CloseRun route monitored s s'
      → s.at_start ≡ unopened why
      → s'.at_start ≡ unopened why
  unopened_stays why s s' idle e = e
  unopened_stays why s s' (next run step) e = stepped step (unopened_stays why s _ run e)
    where
      stepped :
          {a b : Shared R}
          → CloseStep route monitored a b
          → a.at_start ≡ unopened why
          → b.at_start ≡ unopened why
      stepped (open_fails _ at) h = absurd (ground (arith, at, h))
      stepped (opens _ at) h = absurd (ground (arith, at, h))
      stepped (turns _ _ _ _ at _ _) h = absurd (ground (arith, at, h))
      stepped (returns _ _ _ _ at _ _) h = absurd (ground (arith, at, h))
      stepped (source_not_closed _ _) h = h
      stepped (source_closed _) h = h
      stepped (close_returns _ _) h = h

  -- Close can still return nil.
  abbrev pub CanFinish : Shared R → Type 0
  CanFinish s = (s' : Shared R) × CloseRun route monitored s s' × (s'.at_close ≡ close_done)

  closes_loop :
      (l : NozzleLoop R) (s s' : Shared R)
      → CloseRun route monitored s s'
      → s'.at_start ≡ looping l
      → s'.at_close ≡ waits
      → s'.closing_closed ≡ true
      → CanFinish s
  unfolding take_choice
  closes_loop l s s' run at w c =
      (_, next (next run (returns false closing l _ at c refl)) (close_returns w refl), refl)

  finishes :
      (st : StartState R) (s : Shared R)
      → s.at_start ≡ st
      → IsConsistent s
      → s.at_close ≡ waits
      → ((e : String) → st ≢ unopened e)
      → R
      → CanFinish s
  finishes (unopened e) s at i w opened r = absurd (opened e refl)
  finishes (ended l) s at i w opened r =
      (_, next idle (close_returns w (i.ended_closed l at)), refl)
  finishes (looping l) s at i w opened r = closes_loop l s s idle at w (i.waits_closing w)
  finishes not_started s at i w opened r =
      closes_loop _ s _ (next idle (opens r at)) refl w (i.waits_closing w)

  -- In any interleaving of Start and Close, where Close waits for the loop: it can still return
  -- nil exactly if Start did not fail to open the source. Where it did, Close waits forever.
  pub Close-finishes :
      (r : R) (s : Shared R)
      → CloseRun route monitored new_shared s
      → s.at_close ≡ waits
      → CanFinish s ↔ ((e : String) → s.at_start ≢ unopened e)
  Close-finishes r s run w = (
    λ (s', more, done) e failed.
        let i =
          CloseRun-IsConsistent new_shared s' (followed new_shared s s' run more)
            new_shared-IsConsistent in
        let (l, at) = i.closed_ended (i.done_closed done) in
        ground (arith, at, unopened_stays e s s' more failed),
    λ opened.
        finishes s.at_start s refl (CloseRun-IsConsistent new_shared s run new_shared-IsConsistent)
          w opened r,
  )

  -- Once Close has returned nil, in any interleaving, the loop has ended, and it routes nothing
  -- any more whatever happens next: the state behind the router stays as the loop left it.
  pub Close-ended :
      (s : Shared R)
      → CloseRun route monitored new_shared s
      → s.at_close ≡ close_done
      → (l : NozzleLoop R) × (s.at_start ≡ ended l)
        × ((s' : Shared R) → CloseRun route monitored s s' → s'.at_start ≡ ended l)
  Close-ended s run done =
      let i = CloseRun-IsConsistent new_shared s run new_shared-IsConsistent in
      let (l, at) = i.closed_ended (i.done_closed done) in
      (l, at, λ s' more. ended_stays l s s' more at)
