-- ===== src/Examples/Goroutines.antt =====
-- The operations of a cache at the same time: two goroutines look up the same app.
use splunk_firehose_nozzle.Base.{ℕ, List, [], ◌∷◌, ◌≡◌, refl}
use splunk_firehose_nozzle.Base.Int.{pos, ◌-ℤ◌}
use splunk_firehose_nozzle.Base.Dict.{lookup, insert, lookup-nil}
use splunk_firehose_nozzle.Base.Family.{replace}
use splunk_firehose_nozzle.Base.Result.{ok}
use splunk_firehose_nozzle.Cache.Boltdb.Keyed.{IsDbKeyed}
use splunk_firehose_nozzle.Cache.Goroutines.{
  looks, returned, Crew, advance, CrewRun, starts, moves, rests, goes_on,
}
use splunk_firehose_nozzle.Cache.Goroutines.Safe.{AllHold, AllHold-nil}
use splunk_firehose_nozzle.Cache.Goroutines.Keyed.{opened_crew, CrewRun-keyed}
use splunk_firehose_nozzle.Cache.App.{App}
use splunk_firehose_nozzle.Cache.Boltdb.{get_app}
use splunk_firehose_nozzle.Cache.Goroutines.Alone.Agrees.{Agrees, Ends}
use splunk_firehose_nozzle.Cache.Goroutines.Alone.Every.{AllSettle, advance-alone}
use splunk_firehose_nozzle.Examples.Cache.{
  fresh_cache, memory, memory_laws, online, online-AnswersGuid, cache_config, empty_db-IsDbKeyed,
}

-- Goroutine i goes on by one step.
abbrev moved : ℕ → Crew memory → Crew memory
moved i c = record {
  memory = (advance memory cache_config online (pos 1) (c.at i) c.memory).1;
  at = replace c.at i (advance memory cache_config online (pos 1) (c.at i) c.memory).0;
}

-- The last goroutine of the list moves first.
abbrev scheduled : List ℕ → Crew memory → Crew memory
scheduled [] c = c
scheduled (i ∷ is) c = moved i (scheduled is c)

abbrev both_looking : Crew memory
both_looking =
    let c = opened_crew memory [] in
    record c { at = replace (replace c.at 0 (looks "app-7")) 1 (looks "app-7") }

run_of :
    (is : List ℕ) → CrewRun memory cache_config (opened_crew memory []) (scheduled is both_looking)
run_of [] =
    goes_on (goes_on rests (starts 0 (looks "app-7") refl refl))
      (starts 1 (looks "app-7") refl refl)
run_of (i ∷ is) = goes_on (run_of is) (moves i online (pos 1) online-AnswersGuid)

-- Both ask the API, in turns, and each stores an app of its own.
abbrev schedule : List ℕ
schedule = 1 ∷ 1 ∷ 0 ∷ 1 ∷ 0 ∷ 1 ∷ 0 ∷ 1 ∷ 0 ∷ 1 ∷ 0 ∷ 1 ∷ 0 ∷ 0 ∷ 1 ∷ 0 ∷ 1 ∷ 0 ∷ 1 ∷ 0 ∷ []

abbrev both_found : Crew memory
both_found = scheduled schedule both_looking

second_found : both_found.at 1 ≡ returned "app-7" (ok 1)
unfolding advance lookup insert ◌-ℤ◌
second_found = refl

CrewRun-keyed_example :
    ((both_found.memory.apps 1).guid ≡ "app-7")
    × AllHold memory both_found.memory both_found.memory.cache
    × IsDbKeyed memory both_found.memory.appdb
CrewRun-keyed_example =
    CrewRun-keyed memory memory_laws cache_config [] both_found 1 1 "app-7" empty_db-IsDbKeyed
      (run_of schedule) second_found

nothing_cached : Agrees memory (opened_crew memory []).memory fresh_cache
nothing_cached = record {
  cache_agrees = λ k. rw (lookup-nil {V = App} k, lookup-nil {V = ℕ} k) refl;
  missing_agrees = refl;
  names_agree = refl;
  db_agrees = refl;
}

advance-alone_example :
    let m = (opened_crew memory []).memory in
    Ends memory cache_config online
      (pos 1)
      (looks "app-7", m)
      "app-7"
      (get_app memory cache_config online (pos 1) "app-7" fresh_cache)
    × AllSettle memory cache_config online (pos 1) m fresh_cache
advance-alone_example =
    advance-alone memory cache_config online (pos 1) "app-7" (opened_crew memory []).memory
      fresh_cache (AllHold-nil memory (opened_crew memory []).memory) nothing_cached
