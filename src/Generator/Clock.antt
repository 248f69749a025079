-- ===== src/Generator/Clock.antt =====
-- The time stamps of internal/generator/syslog_generator.go: the layout "2006-01-02T15:04:05.000Z" of
-- a time in UTC, and the cache that is renewed once a second.
use Prim.Native.String.{◌++◌ as append_text}
use log_generator.Generator.{append_all, digits}
use log_generator.Generator.Codes.{codes, codes-append, lacks}
use log_generator.Generator.Parse.Tables.{digits-Rows}
use log_generator.Prelude.{
  All, List, String, [], arith, false, get_or, length, refl, true, ℕ, ◌%◌, ◌+◌, ◌/◌, ◌<◌, ◌==◌, ◌∷◌,
  ◌≡◌,
}
use log_generator.Prelude.Int.{ℤ}

-- A time in UTC, in milliseconds
pub record UtcTime : Type 0 where
  pub year : ℕ
  pub month : ℕ
  pub day : ℕ
  pub hour : ℕ
  pub minute : ℕ
  pub second : ℕ
  pub milli : ℕ

abbrev digit : ℕ → String
digit n = get_or digits (n % 10) ""

abbrev two_digits : ℕ → String
two_digits n = append_text (digit (n / 10)) (digit n)

abbrev three_digits : ℕ → String
three_digits n = append_text (digit (n / 100)) (two_digits n)

abbrev four_digits : ℕ → String
four_digits n = append_text (digit (n / 1000)) (three_digits n)

-- now.UTC().Format(...), for a year of four digits
unfoldable pub format_utc : UtcTime → String
format_utc t = append_all "" (
    four_digits t.year
    ∷ "-"
    ∷ two_digits t.month
    ∷ "-"
    ∷ two_digits t.day
    ∷ "T"
    ∷ two_digits t.hour
    ∷ ":"
    ∷ two_digits t.minute
    ∷ ":"
    ∷ two_digits t.second
    ∷ "."
    ∷ three_digits t.milli
    ∷ "Z"
    ∷ [])

-- The cache of SystemLogGenerator
pub record TimestampCache : Type 0 where
  pub timestamp_cache : String
  pub last_timestamp : ℤ

-- updateTimestamp, at a time given twice: as a number and in UTC
unfoldable pub update_timestamp : ℤ → UtcTime → TimestampCache → TimestampCache
update_timestamp now utc g = record g { timestamp_cache = format_utc utc; last_timestamp = now }

-- startTimestampUpdater: the first stamp, and the ticks of its goroutine
unfoldable pub run_updater : List (ℤ × UtcTime) → TimestampCache → TimestampCache
run_updater [] g = g
run_updater ((now, utc) ∷ later) g = run_updater later (update_timestamp now utc g)

codes-digit : (n : ℕ) → codes (digit n) ≡ (48 + n % 10) ∷ []
codes-digit n = digits-Rows (n % 10) (omega arith)

abbrev digit_code : ℕ → ℕ
digit_code n = 48 + n % 10

-- The bytes of a time stamp
abbrev stamp : UtcTime → List ℕ
stamp t =
    digit_code (t.year / 1000)
    ∷ digit_code (t.year / 100)
    ∷ digit_code (t.year / 10)
    ∷ digit_code t.year
    ∷ b'-'
    ∷ digit_code (t.month / 10)
    ∷ digit_code t.month
    ∷ b'-'
    ∷ digit_code (t.day / 10)
    ∷ digit_code t.day
    ∷ b'T'
    ∷ digit_code (t.hour / 10)
    ∷ digit_code t.hour
    ∷ b':'
    ∷ digit_code (t.minute / 10)
    ∷ digit_code t.minute
    ∷ b':'
    ∷ digit_code (t.second / 10)
    ∷ digit_code t.second
    ∷ b'.'
    ∷ digit_code (t.milli / 100)
    ∷ digit_code (t.milli / 10)
    ∷ digit_code t.milli
    ∷ b'Z'
    ∷ []

codes-format_utc : (t : UtcTime) → codes (format_utc t) ≡ stamp t
unfolding format_utc
codes-format_utc t = simp (codes-append, codes-digit)

lacks-below : (c : ℕ) (xs : List ℕ) → All (λ x. c < x) xs → lacks c xs ≡ true
lacks-below c [] h = refl
lacks-below c (x ∷ xs) h =
    let other : (x == c) ≡ false = ground arith in rw (other, lacks-below c xs h.1) refl

pub length-format_utc : (t : UtcTime) → length (codes (format_utc t)) ≡ 24
length-format_utc t = rw (codes-format_utc t) refl

pub format_utc-lacks : (c : ℕ) (t : UtcTime) → c < b'-' → lacks c (codes (format_utc t)) ≡ true
format_utc-lacks c t h = rw (codes-format_utc t) (lacks-below c (stamp t) (omega arith))
