-- ===== src/ConnectionHandler.antt =====
-- connection/connection_handler.py: one run of the handler over what its environment does, and the
-- interval before the next one. A duration is its number of microseconds.
pub mod Backoff
pub mod Discovery
pub mod Run
use brewblox_devcon_spark.Base.{
  ℕ, zero, suc, ◌+◌, ◌*◌, ◌/◌, ◌%◌, min, Bool, true, false, not, ◌&&◌, ◌||◌, List, [], ◌∷◌, Option,
  none, some, Text, ltb, ◌==◌, if◌then◌else◌,
}
use brewblox_devcon_spark.Base.Exn.{
  Exn, Result, ok, err, connection_aborted, connection_error, timeout_error, not_connected,
}
use brewblox_devcon_spark.Models.{ConnectionKind}
use brewblox_devcon_spark.Models.Config.{Ratio, ServiceConfig, DiscoveryType}
use brewblox_devcon_spark.StateMachine.{StateMachine, set_connected, set_disconnected}

-- `value * factor` for a timedelta: the exact product with the float's integer ratio, rounded to
-- the nearest microsecond, and to the even one between two.
unfoldable pub scale : ℕ → Ratio → ℕ
scale value r =
    let n = value * r.numerator in
    let q = n / r.denominator in
    let twice = 2 * (n % r.denominator) in
    if ltb r.denominator twice || (twice == r.denominator && q % 2 == 1) then q + 1 else q

-- A timedelta of zero is false.
pub calc_interval : ServiceConfig → Option ℕ → ℕ
calc_interval config none = config.connect_interval
calc_interval config (some zero) = config.connect_interval
calc_interval config (some (suc n)) =
    min (scale (suc n) config.connect_backoff) config.connect_interval_max

-- A connection that was made, with what it is known by.
pub record ConnectionImpl : Type 0 where
  pub kind : ConnectionKind
  pub address : Text

pub record ConnectionHandler : Type 0 where
  pub enabled : Bool
  pub last_ok : Bool
  pub interval : ℕ
  pub impl : Option ConnectionImpl
  pub state : StateMachine

pub init : ServiceConfig → StateMachine → ConnectionHandler
init config state = record {
  enabled = true;
  last_ok = true;
  interval = calc_interval config none;
  impl = none;
  state = state;
}

-- How one kind of connection can be made.
pub data Source : Type 0 where
  mock simulation tcp usb mdns mqtt : Source

-- The device host is given and not empty.
is_given : Option Text → Bool
is_given none = false
is_given (some []) = false
is_given (some (c ∷ t)) = true

-- The kinds that one round of `discover` tries, in order.
pub discovered : DiscoveryType → List Source
discovered DiscoveryType.all = usb ∷ mdns ∷ mqtt ∷ []
discovered DiscoveryType.usb = usb ∷ []
discovered DiscoveryType.mdns = mdns ∷ []
discovered DiscoveryType.mqtt = mqtt ∷ []

-- What the environment answers when a connection is tried, by round of discovery: an exception, no
-- device, or a connection.
abbrev pub Tries : Type 0
Tries = ℕ → Source → Result (Option ConnectionImpl)

or_next :
    Result (Option ConnectionImpl) → Result (Option ConnectionImpl) → Result (Option ConnectionImpl)
or_next (err e) later = err e
or_next (ok (some impl)) later = ok (some impl)
or_next (ok none) later = later

pub try_all : Tries → ℕ → List Source → Result (Option ConnectionImpl)
unfolding or_next
try_all tries round [] = ok none
try_all tries round (source ∷ rest) = or_next (tries round source) (try_all tries round rest)

-- The rounds that the timeout leaves room for; at the end of it `asyncio.timeout` raises TimeoutError.
pub discovery_rounds : Tries → DiscoveryType → ℕ → ℕ → Result (Option ConnectionImpl)
unfolding or_next try_all discovered
discovery_rounds tries kind zero round = err timeout_error
discovery_rounds tries kind (suc left) round =
    let later = discovery_rounds tries kind left (suc round) in
    or_next (try_all tries round (discovered kind)) later

-- `except asyncio.TimeoutError`
pub or_aborted : Result (Option ConnectionImpl) → Result (Option ConnectionImpl)
or_aborted (err timeout_error) = err connection_aborted
or_aborted r = r

pub discover : Tries → DiscoveryType → ℕ → ℕ → Result (Option ConnectionImpl)
unfolding discovery_rounds or_aborted
discover tries kind left round = or_aborted (discovery_rounds tries kind left round)

pub connect : ServiceConfig → Tries → ℕ → Result (Option ConnectionImpl)
unfolding is_given discover
connect config tries rounds =
    if config.mock
    then tries 0 mock
    else if config.simulation
    then tries 0 simulation
    else if is_given config.device_host
    then tries 0 tcp
    else discover tries config.discovery rounds 0

-- What happens behind the connection: it is made and later lost, or an exception comes first.
pub data Link : Type 0 where
  lost : Link
  failed : Exn → Link

-- The two `except` branches.
pub handle : ServiceConfig → Exn → ConnectionHandler → ConnectionHandler
handle config connection_aborted h = record h { interval = calc_interval config (some h.interval) }
handle config e h = record h { last_ok = false }

-- `finally`: the connection is closed, and its errors suppressed.
pub close : ConnectionHandler → ConnectionHandler
close h = record h { impl = none; state = set_disconnected h.state }

-- The body of `try` behind `wait_enabled`, up to the exception that always ends it.
pub attempt :
    ServiceConfig
    → Result (Option ConnectionImpl)
    → Link
    → ConnectionHandler
    → Exn × ConnectionHandler
attempt config (err e) link h = (e, h)
attempt config (ok none) link h = (Exn.attribute_error, h)
attempt config (ok (some impl)) (failed e) h = (e, record h { impl = some impl })
attempt config (ok (some impl)) lost h = (
  connection_error,
  record h {
    impl = some impl;
    last_ok = true;
    interval = calc_interval config none;
    state = set_connected impl.kind impl.address h.state;
  },
)

pub run :
    ServiceConfig → Result (Option ConnectionImpl) → Link → ConnectionHandler → ConnectionHandler
unfolding handle close attempt
run config result link h = let (e, h') = attempt config result link h in close (handle config e h')

-- `send_request` raises unless a connection is up.
pub send_request : Bool → Text → ConnectionHandler → Result (Option Text)
send_request connected_ev msg h = elim h.impl [
  | none ↦ err not_connected
  | some impl ↦ if connected_ev then ok (some msg) else err not_connected
]
