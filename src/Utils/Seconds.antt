-- ===== src/Utils/Seconds.antt =====
-- NanoSecondsToSeconds of utils/utils.go.
use Prim.Native.String.{◌++◌, len, slice}
use text.Mathlib.TextPositions.{len-append, slice-append_left, slice-append_right}
use splunk_firehose_nozzle.Base.{
  ℕ, ◌-◌, ◌/◌, ◌%◌, ◌^◌, ◌≤◌, ◌<◌, String, ◌≡◌, refl, arith, ltb, if◌then◌else◌, lt→ltb, false,
  Bool-cases, inl, inr, ltb→lt, true, ap, ◌==◌, eq_iff,
}
use splunk_firehose_nozzle.Base.Int.{ℤ, pos}
use splunk_firehose_nozzle.Utils.Decimal.{
  format_int, format_int-pos, format_uint, padded, format_uint-split, len-padded,
  len-format_uint_lt, len-format_uint-pos,
}

-- The split of the decimal text before its last nine characters.
point_at : String → String
point_at nano_str =
    let decimal_index = len nano_str - 9 in
    slice nano_str 0 decimal_index ++ ("." ++ slice nano_str decimal_index (len nano_str))

-- `len(nanoStr) < 10` is the time under one second.
seconds_of : String → String
unfolding point_at
seconds_of nano_str = if ltb (len nano_str) 10 then "0.0" else point_at nano_str

unfoldable pub nanoseconds_to_seconds : ℤ → String
unfolding seconds_of
nanoseconds_to_seconds nanoseconds = seconds_of (format_int nanoseconds)

point_at-append : (s t : String) → len t ≡ 9 → point_at (s ++ t) ≡ s ++ ("." ++ t)
unfolding point_at
point_at-append s t h = rw (len_front, slice-append_left, len-append, slice-append_right)
  where
    len_front : len (s ++ t) - 9 ≡ len s
    len_front = omega (arith, len-append s t)

seconds_of-append : (s t : String) → 1 ≤ len s → len t ≡ 9 → seconds_of (s ++ t) ≡ s ++ ("." ++ t)
unfolding seconds_of
seconds_of-append s t h k = rw (ten_or_more, point_at-append s t k)
  where
    ten_or_more : ltb (len (s ++ t)) 10 ≡ false
    ten_or_more = ground (arith, len-append s t)

seconds_of-short : (s : String) → len s < 10 → seconds_of s ≡ "0.0"
unfolding seconds_of
seconds_of-short s h = rw (lt→ltb (len s) 10 h)

some_length : (s : String) → 1 ≤ len s → (s == "") ≡ false
some_length s h = elim (Bool-cases (s == "")) [
  | inl empty ↦ absurd (omega (arith, h, ap (λ (t : String). len t) (is_empty empty)))
  | inr filled ↦ filled
]
  where
    is_empty : (s == "") ≡ true → s ≡ ""
    is_empty e = ground (arith, eq_iff s "", e)

seconds_of-filled : (s : String) → 1 ≤ len (seconds_of s)
unfolding seconds_of point_at
seconds_of-filled s = elim (Bool-cases (ltb (len s) 10)) [
  | inl short ↦ rw short (omega arith)
  | inr long ↦ rw long (
      omega (
        arith,
        len-append (slice s 0 (len s - 9)) ("." ++ slice s (len s - 9) (len s)),
        len-append "." (slice s (len s - 9) (len s)),
      ))
]

-- The text of a time is never empty.
pub nanoseconds_to_seconds-filled : (n : ℤ) → (nanoseconds_to_seconds n == "") ≡ false
unfolding nanoseconds_to_seconds
nanoseconds_to_seconds-filled n =
    some_length (seconds_of (format_int n)) (seconds_of-filled (format_int n))

seconds_unfolded : (n : ℕ) → nanoseconds_to_seconds (pos n) ≡ seconds_of (format_uint n)
unfolding nanoseconds_to_seconds
seconds_unfolded n = rw format_int-pos

-- A time of n nanoseconds, not negative, is written 0.0 if it is under one second, and else as its
-- whole seconds in decimal, a point, and exactly nine digits of nanoseconds.
pub nanoseconds_to_seconds_exact :
    (n : ℕ)
    → nanoseconds_to_seconds (pos n) ≡ (
        if ltb n (10 ^ 9)
        then "0.0"
        else format_uint (n / 10 ^ 9) ++ ("." ++ padded 9 (n % 10 ^ 9)))
nanoseconds_to_seconds_exact n = elim (Bool-cases (ltb n (10 ^ 9))) [
  | inl short ↦
      rw (short, seconds_unfolded)
        (seconds_of-short (format_uint n) (few (ltb→lt n (10 ^ 9) short)))
  | inr long ↦ rw (long, seconds_unfolded) (late (ground arith))
]
  where
    few : n < 10 ^ 9 → len (format_uint n) < 10
    few h = omega (arith, len-format_uint_lt 8 n h)

    late :
        10 ^ 9 ≤ n
        → seconds_of (format_uint n) ≡ format_uint (n / 10 ^ 9) ++ ("." ++ padded 9 (n % 10 ^ 9))
    late h =
        rw (format_uint-split 9 n h)
          (seconds_of-append _ _ (len-format_uint-pos _) (len-padded 9 _))

seconds_2017 : nanoseconds_to_seconds (pos 1467128185055072010) ≡ "1467128185.055072010"
unfolding nanoseconds_to_seconds format_int
seconds_2017 = refl
