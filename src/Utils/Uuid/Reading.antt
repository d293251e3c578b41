-- ===== src/Utils/Uuid/Reading.antt =====
-- A UUID read back from its text.
use Prim.Native.String.{[], ◌∷◌, ◌++◌}
use text.Mathlib.TextLemmas.{nil-append, cons-append, append-nil}
use native.Mathlib.Nat.{pow-succ'}
use splunk_firehose_nozzle.Base.{
  ℕ, zero, suc, ◌+◌, ◌-◌, ◌*◌, ◌/◌, ◌%◌, ◌^◌, ◌<◌, Bool, true, false, String, Char, code, Option,
  some, List, ◌≡◌, refl, sym, ◌∙◌, ap, subst, Bool-cases, inl, inr, arith, eqb, leb, if◌then◌else◌,
  take, drop, All, All-append, All-take, All-drop,
}
use splunk_firehose_nozzle.Base
use mathlib.Core.List
use splunk_firehose_nozzle.Utils.Decimal.{digit}
use splunk_firehose_nozzle.Utils.Uuid.{put_uint, hex, slice, format_bytes, format_uuid}
use splunk_firehose_nozzle.Events.Envelope.{Uuid}

-- The value of a digit.
abbrev pub nibble : Char → ℕ
nibble c = if leb b'a' (code c) then code c - 87 else code c - 48

-- A digit has its value, and is no dash.
digit_read : (d : ℕ) → d < 16 → (nibble (digit d) ≡ d) × (eqb (code (digit d)) b'-' ≡ false)
unfolding digit
digit_read zero h = (refl, refl)
digit_read (suc zero) h = (refl, refl)
digit_read (suc (suc zero)) h = (refl, refl)
digit_read (suc (suc (suc zero))) h = (refl, refl)
digit_read (suc (suc (suc (suc zero)))) h = (refl, refl)
digit_read (suc (suc (suc (suc (suc zero))))) h = (refl, refl)
digit_read (suc (suc (suc (suc (suc (suc zero)))))) h = (refl, refl)
digit_read (suc (suc (suc (suc (suc (suc (suc zero))))))) h = (refl, refl)
digit_read (suc (suc (suc (suc (suc (suc (suc (suc zero)))))))) h = (refl, refl)
digit_read (suc (suc (suc (suc (suc (suc (suc (suc (suc zero))))))))) h = (refl, refl)
digit_read (suc (suc (suc (suc (suc (suc (suc (suc (suc (suc zero)))))))))) h = (refl, refl)
digit_read (suc (suc (suc (suc (suc (suc (suc (suc (suc (suc (suc zero))))))))))) h = (refl, refl)
digit_read (suc (suc (suc (suc (suc (suc (suc (suc (suc (suc (suc (suc zero)))))))))))) h =
    (refl, refl)
digit_read (suc (suc (suc (suc (suc (suc (suc (suc (suc (suc (suc (suc (suc zero))))))))))))) h =
    (refl, refl)
digit_read (suc (suc (suc (suc (suc (suc (suc (suc (suc (suc (suc (suc (suc (suc zero))))))))))))))
      h =
    (refl, refl)
digit_read
      (suc (suc (suc (suc (suc (suc (suc (suc (suc (suc (suc (suc (suc (suc (suc d)))))))))))))))
      h =
    (omega (arith, h), refl)

-- The text without its dashes.
abbrev pub undash : String → String
undash [] = []
undash (c ∷ s) = let rest = undash s in if eqb (code c) b'-' then rest else c ∷ rest

-- Two digits a byte.
abbrev pub read_hex : String → List ℕ
read_hex [] = Base.[]
read_hex (c ∷ []) = Base.[]
read_hex (c ∷ d ∷ s) = Base.◌∷◌ (16 * nibble c + nibble d) (read_hex s)

-- The number whose lowest byte is the first.
abbrev pub number_of : List ℕ → ℕ
number_of Base.[] = 0
number_of (Base.◌∷◌ b bs) = b + 256 * number_of bs

abbrev pub read_uuid : String → Uuid
read_uuid text =
    let bytes = read_hex (undash text) in
    record { low = number_of (take 8 bytes); high = number_of (drop 8 bytes) }

number_of-put_uint : (k n : ℕ) → n < 256 ^ k → number_of (put_uint k n) ≡ n
unfolding put_uint
number_of-put_uint zero n h = omega (arith, h)
number_of-put_uint (suc k) n h =
    rw (number_of-put_uint k (n / 256) (omega (arith, h, pow-succ' 256 k))) (omega arith)

undash-append : (s t : String) → undash (s ++ t) ≡ undash s ++ undash t
undash-append [] t = rw (nil-append, nil-append) refl
undash-append (c ∷ s) t = elim (Bool-cases (eqb (code c) b'-')) [
  | inl dash ↦ rw (cons-append, dash) (undash-append s t)
  | inr other ↦ rw (cons-append, other, cons-append, undash-append s t) refl
]

-- Bytes, as they come in a list.
abbrev pub AllBytes : List ℕ → Type 0
AllBytes bs = All (λ b. b < 256) bs

undash-hex : (bs : List ℕ) → AllBytes bs → undash (hex bs) ≡ hex bs
unfolding hex
undash-hex Base.[] h = refl
undash-hex (Base.◌∷◌ b bs) (small, h) =
    let (high, no_dash) = digit_read (b / 16) (omega (arith, small)) in
    let (low, none_here) = digit_read (b % 16) (omega arith) in
    rw (no_dash, none_here, undash-hex bs h) refl

read_hex-hex :
    (bs : List ℕ) (rest : String)
    → AllBytes bs
    → read_hex (hex bs ++ rest) ≡ Base.◌++◌ bs (read_hex rest)
unfolding hex
read_hex-hex Base.[] rest h = rw nil-append refl
read_hex-hex (Base.◌∷◌ b bs) rest (small, h) =
    let (high, no_dash) = digit_read (b / 16) (omega (arith, small)) in
    let (low, none_here) = digit_read (b % 16) (omega arith) in
    rw (cons-append, cons-append, high, low, read_hex-hex bs rest h)
      (ap (λ (n : ℕ). Base.◌∷◌ n (Base.◌++◌ bs (read_hex rest))) (omega arith))

put_uint-AllBytes : (k n : ℕ) → AllBytes (put_uint k n)
unfolding put_uint
put_uint-AllBytes zero n = tt
put_uint-AllBytes (suc k) n = (omega arith, put_uint-AllBytes k (n / 256))

slice-AllBytes : (from len : ℕ) (bs : List ℕ) → AllBytes bs → AllBytes (slice from len bs)
slice-AllBytes from len bs h =
    All-take (λ b. b < 256) len (drop from bs) (All-drop (λ b. b < 256) from bs h)

-- A group of digits in front of a dash, read.
group_read :
    (bs rest_bytes : List ℕ) (rest : String)
    → AllBytes bs
    → read_hex (undash rest) ≡ rest_bytes
    → read_hex (undash (hex bs ++ ("-" ++ rest))) ≡ Base.◌++◌ bs rest_bytes
group_read bs rest_bytes rest all h =
    rw
      (
        undash-append (hex bs),
        undash-hex bs all,
        undash-append "-" rest,
        nil-append,
        read_hex-hex bs (undash rest) all,
        h,
      )
      refl

last_group_read : (bs : List ℕ) → AllBytes bs → read_hex (undash (hex bs)) ≡ bs
last_group_read bs all =
    rw (undash-hex bs all, ← append-nil (hex bs), read_hex-hex bs [] all) (List.append-nil bs)

bytes_read :
    (b : List ℕ)
    → AllBytes b
    → read_hex (undash (format_bytes b))
      ≡ Base.◌++◌ (slice 0 4 b) (
          Base.◌++◌
            (slice 4 2 b)
            (Base.◌++◌ (slice 6 2 b) (Base.◌++◌ (slice 8 2 b) (slice 10 6 b))))
unfolding format_bytes
bytes_read b all =
    let group = λ (from len : ℕ). slice-AllBytes from len b all in
    group_read (slice 0 4 b) _ _ (group 0 4) (
      group_read (slice 4 2 b) _ _ (group 4 2) (
        group_read (slice 6 2 b) _ _ (group 6 2)
          (group_read (slice 8 2 b) _ _ (group 8 2) (last_group_read (slice 10 6 b) (group 10 6)))))

from_halves :
    (uuid : Uuid) (low high : ℕ)
    → low ≡ uuid.low
    → high ≡ uuid.high
    → ◌≡◌ {A = Uuid} (record { low = low; high = high }) uuid
from_halves uuid low high same_low same_high = rw (same_low, same_high) refl

-- The text of a UUID, whose halves are each a uint64, is read back as that UUID: its dashes are left
-- out, its digits taken two by two as bytes, and the first eight are the low half, lowest byte first.
pub read_uuid-format_uuid :
    (uuid : Uuid)
    → uuid.low < 2 ^ 64
    → uuid.high < 2 ^ 64
    → read_uuid (format_uuid (some uuid)) ≡ uuid
unfolding format_uuid put_uint
read_uuid-format_uuid uuid low high =
    rw
      (bytes_read (Base.◌++◌ (put_uint 8 uuid.low) (put_uint 8 uuid.high)) (
        All-append (λ b. b < 256) (put_uint 8 uuid.low) (put_uint 8 uuid.high)
          (put_uint-AllBytes 8 uuid.low) (put_uint-AllBytes 8 uuid.high)))
      (from_halves uuid _ _ (number_of-put_uint 8 uuid.low (omega (arith, low)))
        (number_of-put_uint 8 uuid.high (omega (arith, high))))
