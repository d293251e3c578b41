-- ===== src/Utils/Decimal.antt =====
-- strconv.FormatInt and strconv.FormatUint in base ten.
use Prim.Native.String.{[], ◌∷◌, ◌++◌, len}
use native.Mathlib.Decide.{dec_lt}
use native.Mathlib.Nat.{div-div-eq-div-mul, div-one, pow-succ', mod-eq-sub-mul-div, mul-div-le}
use text.Mathlib.TextLemmas.{append_assoc, append-nil}
use text.Mathlib.TextPositions.{len-append}
use splunk_firehose_nozzle.Base.{
  ℕ, zero, suc, ◌-◌, ◌*◌, ◌/◌, ◌%◌, ◌^◌, ◌≤◌, ◌<◌, String, Char, ◌≡◌, refl, arith, ltb,
  if◌then◌else◌,
}
use splunk_firehose_nozzle.Base.Int.{ℤ, pos, negsuc}

-- A digit below sixteen; larger numbers do not occur.
unfoldable pub digit : ℕ → Char
digit zero = "0"
digit (suc zero) = "1"
digit (suc (suc zero)) = "2"
digit (suc (suc (suc zero))) = "3"
digit (suc (suc (suc (suc zero)))) = "4"
digit (suc (suc (suc (suc (suc zero))))) = "5"
digit (suc (suc (suc (suc (suc (suc zero)))))) = "6"
digit (suc (suc (suc (suc (suc (suc (suc zero))))))) = "7"
digit (suc (suc (suc (suc (suc (suc (suc (suc zero)))))))) = "8"
digit (suc (suc (suc (suc (suc (suc (suc (suc (suc zero))))))))) = "9"
digit (suc (suc (suc (suc (suc (suc (suc (suc (suc (suc zero)))))))))) = "a"
digit (suc (suc (suc (suc (suc (suc (suc (suc (suc (suc (suc zero))))))))))) = "b"
digit (suc (suc (suc (suc (suc (suc (suc (suc (suc (suc (suc (suc zero)))))))))))) = "c"
digit (suc (suc (suc (suc (suc (suc (suc (suc (suc (suc (suc (suc (suc zero))))))))))))) = "d"
digit (suc (suc (suc (suc (suc (suc (suc (suc (suc (suc (suc (suc (suc (suc zero)))))))))))))) = "e"
digit _ = "f"

-- One round for each digit; `suc n` rounds are enough.
decimal_fuel : ℕ → ℕ → String
decimal_fuel zero n = []
decimal_fuel (suc f) n =
    let front = decimal_fuel f (n / 10) in
    if ltb n 10 then digit n ∷ [] else front ++ (digit (n % 10) ∷ [])

-- strconv.FormatUint(n, 10)
unfoldable pub format_uint : ℕ → String
unfolding decimal_fuel digit
format_uint n = decimal_fuel (suc n) n

-- strconv.FormatInt(n, 10)
unfoldable pub format_int : ℤ → String
unfolding format_uint
format_int (pos n) = format_uint n
format_int (negsuc n) = "-" ++ format_uint (suc n)

fuel_irrelevant : (f g n : ℕ) → n < f → n < g → decimal_fuel f n ≡ decimal_fuel g n
unfolding decimal_fuel
fuel_irrelevant zero g n h k = absurd (omega arith)
fuel_irrelevant (suc f) zero n h k = absurd (omega arith)
fuel_irrelevant (suc f) (suc g) n h k = ground (arith, fuel_irrelevant f g (n / 10))

format_uint_lt : (n : ℕ) → n < 10 → format_uint n ≡ digit n ∷ []
unfolding format_uint
format_uint_lt n h = ground arith

format_uint_ge : (n : ℕ) → 10 ≤ n → format_uint n ≡ format_uint (n / 10) ++ (digit (n % 10) ∷ [])
unfolding decimal_fuel
format_uint_ge n h = unfold format_uint in ground (arith, fuel_irrelevant n (suc (n / 10)) (n / 10))

-- The last k digits of m, zeros included.
unfoldable pub padded : ℕ → ℕ → String
unfolding digit
padded zero m = []
padded (suc k) m = padded k (m / 10) ++ (digit (m % 10) ∷ [])

pub format_int-pos : (n : ℕ) → format_int (pos n) ≡ format_uint n
unfolding format_int
format_int-pos n = refl

len-digit : (d : ℕ) → len (digit d ∷ []) ≡ 1
unfolding digit
len-digit zero = refl
len-digit (suc zero) = refl
len-digit (suc (suc zero)) = refl
len-digit (suc (suc (suc zero))) = refl
len-digit (suc (suc (suc (suc zero)))) = refl
len-digit (suc (suc (suc (suc (suc zero))))) = refl
len-digit (suc (suc (suc (suc (suc (suc zero)))))) = refl
len-digit (suc (suc (suc (suc (suc (suc (suc zero))))))) = refl
len-digit (suc (suc (suc (suc (suc (suc (suc (suc zero)))))))) = refl
len-digit (suc (suc (suc (suc (suc (suc (suc (suc (suc zero))))))))) = refl
len-digit (suc (suc (suc (suc (suc (suc (suc (suc (suc (suc zero)))))))))) = refl
len-digit (suc (suc (suc (suc (suc (suc (suc (suc (suc (suc (suc zero))))))))))) = refl
len-digit (suc (suc (suc (suc (suc (suc (suc (suc (suc (suc (suc (suc zero)))))))))))) = refl
len-digit (suc (suc (suc (suc (suc (suc (suc (suc (suc (suc (suc (suc (suc zero))))))))))))) = refl
len-digit (suc (suc (suc (suc (suc (suc (suc (suc (suc (suc (suc (suc (suc (suc zero)))))))))))))) =
    refl
len-digit _ = refl

pub len-padded : (k m : ℕ) → len (padded k m) ≡ k
unfolding padded
len-padded zero m = refl
len-padded (suc k) m = omega (
  arith,
  len-append (padded k (m / 10)) (digit (m % 10) ∷ []),
  len-padded k (m / 10),
  len-digit (m % 10),
)

-- A number of at most k + 1 digits has at most k + 1 characters.
pub len-format_uint_lt : (k n : ℕ) → n < 10 ^ suc k → len (format_uint n) ≤ suc k
len-format_uint_lt zero n h = rw (format_uint_lt n h) (omega (arith, len-digit n))
len-format_uint_lt (suc k) n h = elim (dec_lt n 10) [
  | yes small ↦ rw (format_uint_lt n small) (omega (arith, len-digit n))
  | no big ↦ rw (format_uint_ge n (omega arith)) (
      omega (
        arith,
        len-append (format_uint (n / 10)) (digit (n % 10) ∷ []),
        len-digit (n % 10),
        len-format_uint_lt k (n / 10) (omega (arith, pow-succ' 10 (suc k))),
      ))
]

pub len-format_uint-pos : (n : ℕ) → 1 ≤ len (format_uint n)
len-format_uint-pos n = elim (dec_lt n 10) [
  | yes small ↦ rw (format_uint_lt n small) (omega (arith, len-digit n))
  | no big ↦
      rw (format_uint_ge n (omega arith))
        (omega (arith, len-append (format_uint (n / 10)) (digit (n % 10) ∷ []), len-digit (n % 10)))
]

pow-pos : (k : ℕ) → 1 ≤ 10 ^ k
pow-pos zero = omega arith
pow-pos (suc k) = omega (arith, pow-succ' 10 k, pow-pos k)

shift_mod_eq : (p n : ℕ) → n % (10 * p) ≡ n - 10 * (p * (n / 10 / p))
shift_mod_eq p n = rw (mod-eq-sub-mul-div n (10 * p), ← div-div-eq-div-mul n 10 p) (omega arith)

shift_mod : (p n : ℕ) → (n % (10 * p) / 10 ≡ n / 10 % p) × (n % (10 * p) % 10 ≡ n % 10)
shift_mod p n =
    omega (arith, shift_mod_eq p n, mod-eq-sub-mul-div (n / 10) p, mul-div-le (n / 10) p)

-- The last k digits split off.
pub format_uint-split :
    (k n : ℕ) → 10 ^ k ≤ n → format_uint n ≡ format_uint (n / 10 ^ k) ++ padded k (n % 10 ^ k)
unfolding padded
format_uint-split zero n h = rw (append-nil, div-one)
format_uint-split (suc k) n h = rw (
  pow-succ',
  ← div-div-eq-div-mul n 10 (10 ^ k),
  (shift_mod (10 ^ k) n).0,
  (shift_mod (10 ^ k) n).1,
  format_uint_ge n (omega (arith, pow-succ' 10 k, pow-pos k)),
  format_uint-split k (n / 10) (omega (arith, pow-succ' 10 k)),
  append_assoc,
)
