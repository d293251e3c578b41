-- ===== src/Splunknozzle/Pipeline/Wanted.antt =====
-- The envelopes that a router selects, those that Write is called with, and parts of a list.
use mathlib.Core.List.{append_assoc, append-nil}
use splunk_firehose_nozzle.Base.{
  ◌+◌, Bool, List, [], ◌∷◌, ◌++◌, length, is_some, ◌≡◌, refl, sym, arith, if◌then◌else◌,
}
use splunk_firehose_nozzle.Base.Dict.{lookup}
use splunk_firehose_nozzle.Events.Envelope.{Envelope, event_name}
use splunk_firehose_nozzle.Router.{Router}
use splunk_firehose_nozzle.Sink.Workers.{Label, queued, dropped, took, ticked, closed_queue, exited}
use splunk_firehose_nozzle.Sink.Workers.Fifo.{all_queued, all_dropped}

-- The envelopes of the types that the router selects.
abbrev pub is_wanted : Router → Envelope → Bool
is_wanted router e = is_some (lookup (event_name e.event_type) router.selected_events)

abbrev pub wanted : Router → List Envelope → List Envelope
wanted router [] = []
wanted router (e ∷ es) = if is_wanted router e then e ∷ wanted router es else wanted router es

abbrev pub written_by : Label → List Envelope
written_by (queued e) = e ∷ []
written_by (dropped e) = e ∷ []
written_by _ = []

-- The envelopes that Write was called with.
abbrev pub all_written : List Label → List Envelope
all_written [] = []
all_written (l ∷ ls) = written_by l ++ all_written ls

pub all_written-snoc :
    (ls : List Label) (l : Label) → all_written (ls ++ l ∷ []) ≡ all_written ls ++ written_by l
all_written-snoc [] l = append-nil (written_by l)
all_written-snoc (k ∷ ls) l =
    rw (all_written-snoc ls l) (sym (append_assoc (written_by k) (all_written ls) (written_by l)))

pub wanted-append :
    (router : Router) (es fs : List Envelope)
    → wanted router (es ++ fs) ≡ wanted router es ++ wanted router fs
wanted-append router [] fs = refl
wanted-append router (e ∷ es) fs = ground (arith, wanted-append router es fs)

-- Some of the envelopes, in the same order.
pub data IsPart : List Envelope → List Envelope → Type 0 where
  nothing : IsPart [] []
  kept : {es fs : List Envelope} (e : Envelope) → IsPart es fs → IsPart (e ∷ es) (e ∷ fs)
  left_out : {es fs : List Envelope} (e : Envelope) → IsPart es fs → IsPart es (e ∷ fs)

pub all_queued-IsPart : (ls : List Label) → IsPart (all_queued ls) (all_written ls)
all_queued-IsPart [] = nothing
all_queued-IsPart (queued e ∷ ls) = kept e (all_queued-IsPart ls)
all_queued-IsPart (dropped e ∷ ls) = left_out e (all_queued-IsPart ls)
all_queued-IsPart (took i e ∷ ls) = all_queued-IsPart ls
all_queued-IsPart (ticked i ∷ ls) = all_queued-IsPart ls
all_queued-IsPart (closed_queue ∷ ls) = all_queued-IsPart ls
all_queued-IsPart (exited i ∷ ls) = all_queued-IsPart ls

pub length-all_written :
    (ls : List Label) → length (all_written ls) ≡ length (all_queued ls) + all_dropped ls
length-all_written [] = omega arith
length-all_written (queued e ∷ ls) = omega (arith, length-all_written ls)
length-all_written (dropped e ∷ ls) = omega (arith, length-all_written ls)
length-all_written (took i e ∷ ls) = omega (arith, length-all_written ls)
length-all_written (ticked i ∷ ls) = omega (arith, length-all_written ls)
length-all_written (closed_queue ∷ ls) = omega (arith, length-all_written ls)
length-all_written (exited i ∷ ls) = omega (arith, length-all_written ls)
