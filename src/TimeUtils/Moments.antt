-- ===== src/TimeUtils/Moments.antt =====
-- codec/time_utils.py: `parse_datetime` and `serialize_datetime`, and the formats of codec/opts.py.
-- The classes and the libraries for moments are a parameter.
use brewblox_devcon_spark.Base.{ℕ, ◌^◌, ◌/◌, Bool, Option, none, some, String, ltb, if◌then◌else◌}
use brewblox_devcon_spark.Base.Exn.{Result, ok, err, ◌>>=◌, value_error}
use brewblox_devcon_spark.Base.Str.{ℤ}
use brewblox_devcon_spark.Base.Json.{
  Json, null, boolean, number, negative, float, text, truthy, from_int,
}

pub data DateFormatOpt : Type 0 where
  milliseconds seconds iso8601 : DateFormatOpt

-- A moment is a `datetime`; `parse` is `ciso8601.parse_datetime`, `from_timestamp` takes a number in
-- UTC, and `timestamp` and `timestamp_ms` are whole numbers. A float is given by its bits.
pub record Dates : Type 1 where
  pub Moment : Type 0
  pub parse : String → Result Moment
  pub above_limit : ℕ → Bool
  pub floor_1000 : ℕ → ℕ
  pub from_timestamp : Json → Result Moment
  pub timestamp : Moment → ℤ
  pub timestamp_ms : Moment → ℤ
  pub isoformat : Moment → String

module _ (D : Dates) where
  -- Behind the test for a value that is false.
  parse_value : Json → Result D.Moment
  parse_value (text s) = D.parse s
  parse_value (boolean b) = D.from_timestamp (boolean b)
  parse_value (number n) = D.from_timestamp (number (if ltb (10 ^ 11) n then n / 1000 else n))
  parse_value (negative n) = D.from_timestamp (negative n)
  parse_value (float bits) =
      D.from_timestamp (float (if D.above_limit bits then D.floor_1000 bits else bits))
  parse_value _ = err value_error

  unfoldable pub parse_datetime : Json → Result (Option D.Moment)
  unfolding parse_value truthy
  parse_datetime v = if truthy v then parse_value v >>= (λ dt. ok (some dt)) else ok none

  unfoldable pub format_datetime : Option D.Moment → DateFormatOpt → Json
  format_datetime none iso8601 = null
  format_datetime none _ = number 0
  format_datetime (some dt) milliseconds = from_int (D.timestamp_ms dt)
  format_datetime (some dt) seconds = from_int (D.timestamp dt)
  format_datetime (some dt) iso8601 = text (D.isoformat dt)

  unfoldable pub serialize_datetime : Json → DateFormatOpt → Result Json
  unfolding parse_datetime format_datetime
  serialize_datetime value fmt = parse_datetime value >>= λ dt. ok (format_datetime dt fmt)
