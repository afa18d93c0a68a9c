-- ===== src/TimeUtils/Durations.antt =====
-- The text of a duration, read back.
use native.Mathlib.Nat.{div-le_self}
use brewblox_devcon_spark.Base.{
  ℕ, zero, suc, ◌+◌, ◌-◌, ◌*◌, ◌/◌, ◌%◌, ◌<◌, ◌≡◌, refl, ◌∙◌, ap, inl, inr, Bool, true, false, ◌&&◌,
  List, [], ◌∷◌, ◌++◌, append_assoc, Text, arith, leb, leb→gt, ◌==◌, if◌then◌else◌, Bool-cases,
}
use brewblox_devcon_spark.TimeUtils.{
  decimal, periods, serialize_periods, or_zero, serialize_duration,
}

-- The seconds of a unit.
unit_s : ℕ → ℕ
unit_s c = if c == b'd' then 86400 else if c == b'h' then 3600 else if c == b'm' then 60 else 1

is_digit : ℕ → Bool
is_digit c = leb b'0' c && leb c b'9'

-- The sum of the numbers of a text, each times the seconds of the unit behind it; `number` is what was
-- read of the current one.
pub read_duration : Text → ℕ → ℕ
unfolding unit_s is_digit
read_duration [] number = 0
read_duration (c ∷ s) number =
    let more = read_duration s (number * 10 + (c - b'0')) in
    let next = read_duration s 0 in if is_digit c then more else number * unit_s c + next

read_digit :
    (d : ℕ) (rest : Text) (number : ℕ)
    → d < 10
    → read_duration ((b'0' + d) ∷ rest) number ≡ read_duration rest (number * 10 + d)
unfolding read_duration is_digit
read_digit d rest number h =
    let digit : (leb b'0' (b'0' + d) && leb (b'0' + d) b'9') ≡ true = ground arith in
    let same : b'0' + d - b'0' ≡ d = omega arith in rw (digit, same) refl

read_decimal :
    (fuel n : ℕ) (rest : Text)
    → n < fuel
    → read_duration (decimal fuel n ++ rest) 0 ≡ read_duration rest n
unfolding decimal
read_decimal zero n rest h = absurd (omega (arith, h))
read_decimal (suc fuel) n rest h = elim (Bool-cases (n / 10 == 0)) [
  | inl small ↦
      rw small (read_digit (n % 10) rest 0 (omega arith) ∙ ap (read_duration rest) (ground arith))
  | inr large ↦
      rw (large, append_assoc (decimal fuel (n / 10)) ((b'0' + n % 10) ∷ []) rest)
        (read_decimal fuel (n / 10) ((b'0' + n % 10) ∷ rest) (ground (arith, h))
          ∙ read_digit (n % 10) rest (n / 10) (omega arith)
          ∙ ap (read_duration rest) (omega arith))
]

-- A text that is read back as its number of seconds, for the periods in use.
abbrev IsReadBack : List (ℕ × ℕ) → Type 0
IsReadBack ps = (seconds : ℕ) → read_duration (serialize_periods ps seconds) 0 ≡ seconds

read_unit :
    (c p : ℕ) (rest : Text) (number : ℕ)
    → is_digit c ≡ false
    → unit_s c ≡ p
    → read_duration (c ∷ rest) number ≡ number * p + read_duration rest 0
unfolding read_duration
read_unit c p rest number h e = rw (h, e) refl

whole : (s p : ℕ) → 0 < p → (s / p) * p + s % p ≡ s
whole s p h = grind arith

longer-IsReadBack :
    (c p : ℕ) (ps : List (ℕ × ℕ))
    → is_digit c ≡ false
    → unit_s c ≡ p
    → 0 < p
    → IsReadBack ps
    → IsReadBack ((c, p) ∷ ps)
unfolding serialize_periods
longer-IsReadBack c p ps d u h back seconds = elim (Bool-cases (leb p seconds)) [
  | inl fits ↦ rw fits (
      read_decimal (suc seconds) (seconds / p) (c ∷ serialize_periods ps (seconds % p))
        (omega (arith, div-le_self seconds p))
      ∙ read_unit c p (serialize_periods ps (seconds % p)) (seconds / p) d u
      ∙ ap (λ x. (seconds / p) * p + x) (back (seconds % p))
      ∙ whole seconds p h)
  | inr short ↦ rw short (back seconds)
]

last-IsReadBack : IsReadBack ((b's', 1) ∷ [])
unfolding serialize_periods read_duration is_digit unit_s
last-IsReadBack seconds = elim (Bool-cases (leb 1 seconds)) [
  | inl fits ↦ rw fits (
      read_decimal (suc seconds) (seconds / 1) (b's' ∷ []) (omega arith)
      ∙ read_unit b's' 1 [] (seconds / 1) refl refl
      ∙ omega arith)
  | inr short ↦ let none_left : seconds < 1 = leb→gt 1 seconds short in rw short (omega arith)
]

all-IsReadBack : IsReadBack periods
unfolding is_digit unit_s
all-IsReadBack = longer-IsReadBack b'd' 86400 _ refl refl (omega arith) (
    longer-IsReadBack b'h' 3600 _ refl refl (omega arith)
      (longer-IsReadBack b'm' 60 _ refl refl (omega arith) last-IsReadBack))

or_zero-read :
    (t : Text) (seconds : ℕ) → read_duration t 0 ≡ seconds → read_duration (or_zero t) 0 ≡ seconds
unfolding or_zero read_duration is_digit unit_s
or_zero-read [] seconds h = h
or_zero-read (c ∷ s) seconds h = h

-- The text of a duration, read as numbers with units, gives its number of seconds again.
pub read-serialize_duration : (seconds : ℕ) → read_duration (serialize_duration seconds) 0 ≡ seconds
unfolding serialize_duration
read-serialize_duration seconds =
    or_zero-read (serialize_periods periods seconds) seconds (all-IsReadBack seconds)
