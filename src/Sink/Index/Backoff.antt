-- ===== src/Sink/Index/Backoff.antt =====
-- How long the attempts of one batch wait.
use native.Mathlib.Numerals.{add-one}
use native.Mathlib.Nat.{two-pow-succ, pow-le-pow_right}
use splunk_firehose_nozzle.Base.{ℕ, zero, suc, ◌+◌, ◌-◌, ◌*◌, ◌^◌, ◌≤◌, ◌≡◌, List, [], ◌∷◌, arith}
use splunk_firehose_nozzle.Base.Int.{pos, wrap64, pos_part}
use splunk_firehose_nozzle.Sink.Index.{Action, slept, get_retry_interval}

module _ {Err : Type 0} where
  -- how often, and how many nanoseconds, the actions sleep
  abbrev pub sleeps : List (Action Err) → ℕ
  sleeps [] = 0
  sleeps (slept d ∷ rest) = suc (sleeps rest)
  sleeps (_ ∷ rest) = sleeps rest

  abbrev pub waited : List (Action Err) → ℕ
  waited [] = 0
  waited (slept d ∷ rest) = pos_part d + waited rest
  waited (_ ∷ rest) = waited rest

-- The wait of n attempts from the one numbered i: 4.5 seconds for each, and half a second that
-- doubles each time.
abbrev pub backoff : ℕ → ℕ → ℕ
backoff i n = 4500000000 * n + 500000000 * (2 ^ i * (2 ^ n - 1))

two_pow-pos : (n : ℕ) → 1 ≤ 2 ^ n
two_pow-pos zero = omega arith
two_pow-pos (suc n) = omega (arith, two-pow-succ n, two_pow-pos n)

two_pow_pred : (n : ℕ) → 2 ^ suc n - 1 ≡ 2 * (2 ^ n - 1) + 1
two_pow_pred n = omega (arith, two-pow-succ n, two_pow-pos n)

double_next : (i : ℕ) → 2 ^ (i + 1) ≡ 2 * 2 ^ i
double_next i = rw add-one (omega (arith, two-pow-succ i))

pub backoff-suc : (i n : ℕ) → backoff i (suc n) ≡ 4500000000 + 500000000 * 2 ^ i + backoff (i + 1) n
backoff-suc i n = rw (two_pow_pred n, double_next i) (omega arith)

-- Up to the 35th attempt the wait fits an int64, and is the exponential back-off.
pub get_retry_interval_exact :
    (attempt : ℕ)
    → attempt ≤ 34
    → get_retry_interval attempt ≡ pos (4500000000 + 500000000 * 2 ^ attempt)
unfolding get_retry_interval wrap64
get_retry_interval_exact attempt h = ground (
  arith,
  pow-le-pow_right {n = 2} (omega arith) h,
  pow-le-pow_right {n = 2} (omega arith) {i = 0} {j = attempt} (omega arith),
)
