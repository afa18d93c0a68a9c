-- ===== src/TimeUtils.antt =====
-- codec/time_utils.py: durations as text. A duration is its whole number of seconds.
pub mod Durations
pub mod Moments
use brewblox_devcon_spark.Base.{
  ℕ, zero, suc, ◌+◌, ◌*◌, ◌/◌, ◌%◌, Bool, List, [], ◌∷◌, ◌++◌, Text, leb, ◌==◌, if◌then◌else◌,
}

-- `str(n)`: the digits of a number below its fuel.
unfoldable pub decimal : ℕ → ℕ → Text
decimal zero n = []
decimal (suc fuel) n =
    let front = decimal fuel (n / 10) in (if n / 10 == 0 then [] else front) ++ (b'0' + n % 10) ∷ []

-- Postfix and seconds of each period.
abbrev pub periods : List (ℕ × ℕ)
periods = (b'd', 60 * 60 * 24) ∷ (b'h', 60 * 60) ∷ (b'm', 60) ∷ (b's', 1) ∷ []

-- The loop of `serialize_duration`.
unfoldable pub serialize_periods : List (ℕ × ℕ) → ℕ → Text
unfolding decimal
serialize_periods [] seconds = []
serialize_periods ((postfix, period_s) ∷ rest) seconds =
    let without = serialize_periods rest seconds in
    let behind = serialize_periods rest (seconds % period_s) in
    if leb period_s seconds
    then decimal (suc seconds) (seconds / period_s) ++ postfix ∷ behind
    else without

or_zero : Text → Text
or_zero [] = b'0' ∷ b's' ∷ []
or_zero (c ∷ s) = c ∷ s

pub serialize_duration : ℕ → Text
unfolding or_zero serialize_periods
serialize_duration seconds = or_zero (serialize_periods periods seconds)
