-- ===== src/ConnectionHandler/Backoff.antt =====
-- The interval between two runs of the connection handler.
use native.Mathlib.Nat.{mul-le-mul, le_refl}
use native.Mathlib.Decide.{dec_le}
use brewblox_devcon_spark.Base.{
  ℕ, zero, suc, ◌+◌, ◌*◌, ◌/◌, ◌%◌, ◌≤◌, ◌<◌, min, ◌≡◌, refl, ◌&&◌, ◌||◌, Option, none, some, arith,
  ltb, ◌==◌, if◌then◌else◌,
}
use brewblox_devcon_spark.Base.Exn.{Exn, Result, ok, err, connection_aborted}
use brewblox_devcon_spark.Models.Config.{Ratio, ServiceConfig}
use brewblox_devcon_spark.ConnectionHandler.{
  ConnectionHandler, ConnectionImpl, Link, lost, failed, scale, calc_interval, handle, attempt,
  close, run,
}

-- The quotient and the remainder of the product.
scale_parts :
    (value : ℕ) (r : Ratio)
    → 0 < r.denominator
    → (q m : ℕ) × (value * r.numerator ≡ q * r.denominator + m)
      × (m < r.denominator)
      × (scale value r ≡ (
          if ltb r.denominator (2 * m) || (2 * m == r.denominator && q % 2 == 1) then q + 1 else q))
unfolding scale
scale_parts value r h =
    let n = value * r.numerator in
    (n / r.denominator, n % r.denominator, grind arith, grind arith, refl)

quotient-ge : (v q m d n : ℕ) → v * n ≡ q * d + m → m < d → d ≤ n → v ≤ q
quotient-ge v q m d n e l g = elim (dec_le v q) [
  | yes h ↦ h
  | no h ↦ let more : suc q ≤ v = omega arith in absurd (grind (arith, mul-le-mul more g))
]

-- A factor that is not below 1 makes no interval shorter.
scale-ge :
    (value : ℕ) (r : Ratio)
    → 0 < r.denominator
    → r.denominator ≤ r.numerator
    → value ≤ scale value r
scale-ge value r h g =
    let (q, m, whole, less, e) = scale_parts value r h in
    let quotient : value ≤ q = quotient-ge value q m r.denominator r.numerator whole less g in
    rw e (ground arith)

-- Only 1 can be its own quotient under a factor of at least 3/2.
module _ (d n : ℕ) (g : 3 * d ≤ 2 * n) where
  value_one : (v m : ℕ) → 0 < v → v * n ≡ v * d + m → m < d → v ≡ 1
  value_one v m p e l = elim (dec_le 2 v) [
    | no h ↦ omega arith
    | yes h ↦ absurd (omega (arith, mul-le-mul (le_refl v) g, mul-le-mul h (le_refl d)))
  ]

-- A factor of at least 3/2 makes every interval longer.
scale-gt :
    (value : ℕ) (r : Ratio)
    → 0 < value
    → 0 < r.denominator
    → 3 * r.denominator ≤ 2 * r.numerator
    → value < scale value r
scale-gt value r p h g =
    let (q, m, whole, less, e) = scale_parts value r h in rw e (rounded q m whole less)
  where
    one_whole :
        (m : ℕ)
        → value ≡ 1
        → value * r.numerator ≡ value * r.denominator + m
        → r.numerator ≡ r.denominator + m
    one_whole m one e = omega (arith, rw one at e)

    rounded :
        (q m : ℕ)
        → value * r.numerator ≡ q * r.denominator + m
        → m < r.denominator
        → value < (
            if ltb r.denominator (2 * m) || (2 * m == r.denominator && q % 2 == 1)
            then q + 1
            else q)
    rounded q m whole less = elim (dec_le (suc value) q) [
      | yes more ↦ ground arith
      | no few ↦
          let same : q ≡ value =
            omega
              (arith, quotient-ge value q m r.denominator r.numerator whole less (omega arith)) in
          let whole' : value * r.numerator ≡ value * r.denominator + m = rw same at whole in
          let one : value ≡ 1 = value_one r.denominator r.numerator g value m p whole' less in
          let whole_one : r.numerator ≡ r.denominator + m = one_whole m one whole' in
          rw (same, one) (ground arith)
    ]

-- A backoff as it is configured by default, or a longer one.
pub record IsBackoff (config : ServiceConfig) : Type 0 where
  pub denominator : 0 < config.connect_backoff.denominator
  pub at_least : 3 * config.connect_backoff.denominator ≤ 2 * config.connect_backoff.numerator
  pub start : 0 < config.connect_interval
  pub room : config.connect_interval ≤ config.connect_interval_max

-- The limits of the interval, in every state of the handler.
abbrev pub InRange : ServiceConfig → ConnectionHandler → Type 0
InRange config h =
    (config.connect_interval ≤ h.interval) × (h.interval ≤ config.connect_interval_max)

calc_interval-ge :
    (config : ServiceConfig) (n : ℕ)
    → IsBackoff config
    → 0 < n
    → n ≤ config.connect_interval_max
    → (min (suc n) config.connect_interval_max ≤ calc_interval config (some n))
      × (calc_interval config (some n) ≤ config.connect_interval_max)
unfolding calc_interval
calc_interval-ge config zero b p l = absurd (omega arith)
calc_interval-ge config (suc n) b p l =
    let more = scale-gt (suc n) config.connect_backoff p b.denominator b.at_least in
    (omega arith, omega arith)

handle-InRange :
    (config : ServiceConfig) (e : Exn) (h : ConnectionHandler)
    → IsBackoff config
    → InRange config h
    → InRange config (handle config e h)
unfolding handle
handle-InRange config connection_aborted h b r =
    let (more, less) = calc_interval-ge config h.interval b (omega (arith, b.start)) r.1 in
    (omega arith, less)
handle-InRange config _ h b r = r

-- Whatever becomes of a run, the interval before the next one stays between the configured interval
-- and the configured maximum, from a handler in which it does; if the factor is at least 3/2, and
-- the configured interval is positive and at most the maximum.
pub run-InRange :
    (config : ServiceConfig) (result : Result (Option ConnectionImpl)) (link : Link)
    (h : ConnectionHandler)
    → IsBackoff config
    → InRange config h
    → InRange config (run config result link h)
unfolding run attempt close
run-InRange config (err e) link h b r = handle-InRange config e h b r
run-InRange config (ok none) link h b r = handle-InRange config Exn.attribute_error h b r
run-InRange config (ok (some impl)) (failed e) h b r =
    handle-InRange config e (record h { impl = some impl }) b r
run-InRange config (ok (some impl)) lost h b r = unfold calc_interval handle in (le_refl _, b.room)

-- One run of which the connection attempt was aborted.
abbrev pub aborted : ServiceConfig → ConnectionHandler → ConnectionHandler
aborted config h = run config (err connection_aborted) lost h

pub aborts : ℕ → ServiceConfig → ConnectionHandler → ConnectionHandler
aborts zero config h = h
aborts (suc n) config h = aborts n config (aborted config h)

interval-aborted :
    (config : ServiceConfig) (h : ConnectionHandler)
    → IsBackoff config
    → InRange config h
    → min (suc h.interval) config.connect_interval_max ≤ (aborted config h).interval
unfolding run attempt handle close
interval-aborted config h b r =
    (calc_interval-ge config h.interval b (omega (arith, b.start)) r.1).0

-- The interval is at its maximum after at least as many aborted runs in a row as it is away from it
-- in microseconds; under the same conditions on the configuration and the handler.
pub interval-aborts :
    (n : ℕ) (config : ServiceConfig) (h : ConnectionHandler)
    → IsBackoff config
    → InRange config h
    → config.connect_interval_max ≤ h.interval + n
    → (aborts n config h).interval ≡ config.connect_interval_max
unfolding aborts
interval-aborts zero config h b r e = omega arith
interval-aborts (suc n) config h b r e =
    let kept = run-InRange config (err connection_aborted) lost h b r in
    let more = interval-aborted config h b r in
    interval-aborts n config (aborted config h) b kept (omega arith)
