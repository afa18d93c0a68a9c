-- ===== src/Tests/Link.antt =====
-- The connection handler with intervals of 10 to 30 microseconds and a factor of 3/2.
use brewblox_devcon_spark.Base.{
  ℕ, zero, suc, ◌≤◌, ◌<◌, ◌≡◌, ◌⊎◌, true, [], ◌∷◌, Option, none, some, arith,
}
use brewblox_devcon_spark.Base.Exn.{Result, ok, err, connection_aborted}
use brewblox_devcon_spark.Models.{ConnectionKind}
use brewblox_devcon_spark.Models.Config.{Ratio, DiscoveryType}
use brewblox_devcon_spark.StateMachine.{StateMachine, init as state_init}
use brewblox_devcon_spark.StateMachine.Invariant.{run as calls_run, IsConsistent, run-IsConsistent}
use brewblox_devcon_spark.StateMachine.Progress.{phase, down}
use brewblox_devcon_spark.ConnectionHandler.{
  ConnectionHandler, ConnectionImpl, lost, Source, Tries, or_aborted, discover, run,
}
use brewblox_devcon_spark.ConnectionHandler.Backoff.{
  IsBackoff, InRange, aborts, run-InRange, interval-aborts,
}
use brewblox_devcon_spark.ConnectionHandler.Run.{run-down}
use brewblox_devcon_spark.ConnectionHandler.Discovery.{
  allows, rank, IsNothing, AreSilent, discover_first,
}
use brewblox_devcon_spark.Tests.Status.{config, fw}

abbrev factor : Ratio
factor = record { numerator = 3; denominator = 2 }

abbrev usb_link : Result (Option ConnectionImpl)
usb_link = ok (some (record { kind = ConnectionKind.usb; address = b'u' ∷ [] }))

abbrev state : StateMachine
state = calls_run (state_init config fw) []

abbrev handler : ConnectionHandler
handler = record { enabled = true; last_ok = true; interval = 10; impl = none; state = state }

is_backoff : IsBackoff config
is_backoff = record {
  denominator = omega arith;
  at_least = omega arith;
  start = omega arith;
  room = omega arith;
}

run-InRange_example : InRange config (run config (err connection_aborted) lost handler)
run-InRange_example =
    run-InRange config (err connection_aborted) lost handler is_backoff (omega arith, omega arith)

interval-aborts_example : (aborts 20 config handler).interval ≡ 30
interval-aborts_example =
    interval-aborts 20 config handler is_backoff (omega arith, omega arith) (omega arith)

run-down_example :
    let h = run config usb_link lost handler in
    (h.impl ≡ none) × (phase h.state ≡ down) × IsConsistent h.state
run-down_example = run-down config usb_link lost handler (run-IsConsistent config fw [])

-- The device answers on MQTT in the second round.
abbrev tries : Tries
tries (suc zero) Source.mqtt = usb_link
tries _ _ = ok none

discover_first_example :
    ((discover tries DiscoveryType.all 3 0 ≡ err connection_aborted)
      × AreSilent tries DiscoveryType.all 0 3)
    ⊎ ((n : ℕ) × (s : Source) × (0 ≤ n)
        × (n < 3)
        × (allows DiscoveryType.all s ≡ true)
        × (¬ IsNothing (tries n s))
        × AreSilent tries DiscoveryType.all 0 n
        × ((t : Source)
            → allows DiscoveryType.all t ≡ true
            → rank t < rank s
            → IsNothing (tries n t))
        × (discover tries DiscoveryType.all 3 0 ≡ or_aborted (tries n s)))
discover_first_example = discover_first tries DiscoveryType.all 3 0
