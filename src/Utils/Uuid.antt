-- ===== src/Utils/Uuid.antt =====
-- FormatUUID of utils/utils.go.
pub mod Reading
use Prim.Native.String.{◌∷◌, ◌++◌}
use splunk_firehose_nozzle.Base.{
  ℕ, zero, suc, ◌/◌, ◌%◌, String, Option, none, some, List, ◌≡◌, refl, take, drop,
}
use splunk_firehose_nozzle.Base
use splunk_firehose_nozzle.Utils.Decimal.{digit}
use splunk_firehose_nozzle.Events.Envelope.{Uuid}

-- binary.LittleEndian.PutUint64: `k` bytes, the lowest first.
unfoldable pub put_uint : ℕ → ℕ → List ℕ
put_uint zero n = Base.[]
put_uint (suc k) n = Base.◌∷◌ (n % 256) (put_uint k (n / 256))

-- fmt's %x of a byte slice: two digits for each byte.
unfoldable pub hex : List ℕ → String
unfolding digit
hex Base.[] = ""
hex (Base.◌∷◌ b bs) = digit (b / 16) ∷ (digit (b % 16) ∷ hex bs)

abbrev pub slice : ℕ → ℕ → List ℕ → List ℕ
slice from len bytes = take len (drop from bytes)

-- The sixteen bytes, in groups of 4, 2, 2, 2 and 6.
unfoldable pub format_bytes : List ℕ → String
unfolding hex
format_bytes b =
    hex (slice 0 4 b)
    ++ ("-"
        ++ (hex (slice 4 2 b)
            ++ ("-"
                ++ (hex (slice 6 2 b)
                    ++ ("-" ++ (hex (slice 8 2 b) ++ ("-" ++ hex (slice 10 6 b))))))))

unfoldable pub format_uuid : Option Uuid → String
unfolding format_bytes put_uint
format_uuid none = ""
format_uuid (some uuid) = format_bytes (Base.◌++◌ (put_uint 8 uuid.low) (put_uint 8 uuid.high))

uuid_text :
    format_uuid (some (record { low = 0x7243cc580bc17af4; high = 0x79d4c3b2020e67a5 }))
    ≡ "f47ac10b-58cc-4372-a567-0e02b2c3d479"
unfolding format_uuid
uuid_text = refl
