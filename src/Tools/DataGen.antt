-- ===== src/Tools/DataGen.antt =====
-- tools/data_gen/data_gen.go: a generator of log lines, at a rate and up to a number of lines.
pub mod Lines
use splunk_firehose_nozzle.Base.{
  ℕ, zero, suc, ◌+◌, ◌%◌, ◌^◌, String, Bool, true, false, Option, none, some, List, [], ◌∷◌, ◌++◌,
  ◌&&◌, ◌==◌, not, if◌then◌else◌,
}
use splunk_firehose_nozzle.Base.Int.{ℤ, pos, negsuc, ltb_ℤ, wrap64, div_ℤ, pos_part, neg_part}

-- strconv.ParseInt(s, 10, 64), where it gives no error.
abbrev pub ParseInt : Type 0
ParseInt = String → Option ℤ

-- the variables of the environment; one that is not set is empty
abbrev pub Getenv : Type 0
Getenv = String → String

pub record GenConfig : Type 0 where
  pub eps : ℤ
  pub total_events : ℤ

or_default : ℤ → Option ℤ → ℤ
or_default default none = default
or_default default (some n) = n

unfoldable get_int_env : ParseInt → Getenv → String → ℤ → ℤ
unfolding or_default
get_int_env parse_int getenv key default =
    if getenv key == "" then default else or_default default (parse_int (getenv key))

unfoldable pub get_config : ParseInt → Getenv → GenConfig
unfolding get_int_env
get_config parse_int getenv = record {
  eps = get_int_env parse_int getenv "EPS" (pos 10);
  total_events = get_int_env parse_int getenv "TOTAL_EVENTS" (pos 0);
}

-- int64(time.Second) / c.EPS, which rounds towards zero; `none` is the panic of a division by zero.
unfoldable duration_per_event : ℤ → Option ℤ
duration_per_event (pos zero) = none
duration_per_event (pos (suc n)) = some (div_ℤ (pos 1000000000) (suc n))
duration_per_event (negsuc n) = some (div_ℤ (negsuc 999999999) (suc n))

-- time.NewTicker panics at an interval that is not positive.
unfoldable new_ticker : ℤ → Option ℤ
new_ticker d = if ltb_ℤ (pos 0) d then some d else none

-- The interval of the ticker, or a panic before the first line.
unfoldable pub start_ticker : GenConfig → Option ℤ
unfolding duration_per_event new_ticker
start_ticker c = elim (duration_per_event c.eps) [ none ↦ none | some d ↦ new_ticker d ]

-- The loop behind some ticks: still in it, or behind the break. totalGen is an int64, kept as its bit
-- pattern; `lines` are the ids that were printed.
pub data Gen : Type 0 where
  generating : ℕ → List ℤ → Gen
  generated : List ℤ → Gen

-- c.TotalEvents > 0 && totalGen >= c.TotalEvents
abbrev pub is_enough : GenConfig → ℤ → Bool
is_enough c total = ltb_ℤ (pos 0) c.total_events && not (ltb_ℤ total c.total_events)

-- A tick.
unfoldable pub gen_step : GenConfig → Gen → Gen
gen_step c (generated lines) = generated lines
gen_step c (generating bits lines) =
    let total_gen = wrap64 (pos ((bits + 1) % 2 ^ 64)) in
    let printed = lines ++ total_gen ∷ [] in
    if is_enough c total_gen then generated printed else generating ((bits + 1) % 2 ^ 64) printed

-- The loop up to its break; main then says every thirty seconds, for ever, that it is done.
unfoldable pub gen_loop : GenConfig → ℕ → Gen
gen_loop c zero = generating 0 []
gen_loop c (suc ticks) = gen_step c (gen_loop c ticks)
