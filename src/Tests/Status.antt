-- ===== src/Tests/Status.antt =====
-- The state machine of a configured service, through a connection and a handshake.
use brewblox_devcon_spark.Base.{◌≡◌, refl, ◌↔◌, true, false, List, [], ◌∷◌, none, some}
use brewblox_devcon_spark.Base.Exn.{ok}
use brewblox_devcon_spark.Models.{ControllerDescription, ConnectionKind, ConnectionStatus}
use brewblox_devcon_spark.Models.Config.{ServiceConfig, FirmwareConfig, DiscoveryType}
use brewblox_devcon_spark.StateMachine.{
  StateMachine, set_enabled, init, set_acknowledged, set_synchronized, check_compatible,
  set_connected, set_disconnected,
}
use brewblox_devcon_spark.StateMachine.Invariant.{
  Call, enable, connect, acknowledge, synchronize, update, disconnect, apply, run, IsConsistent,
  run-IsConsistent,
}
use brewblox_devcon_spark.StateMachine.Gate.{IsCompatible, check_compatible_iff}
use brewblox_devcon_spark.StateMachine.Progress.{Advances, calls_advance, late_handshake}

abbrev pub config : ServiceConfig
config = record {
  name = b's' ∷ [];
  device_id = some (b'A' ∷ b'1' ∷ []);
  discovery = DiscoveryType.all;
  device_host = none;
  mock = false;
  simulation = false;
  connect_interval = 10;
  connect_interval_max = 30;
  connect_backoff = record { numerator = 3; denominator = 2 };
  skip_version_check = false;
}

abbrev pub fw : FirmwareConfig
fw = record {
  firmware_version = b'f' ∷ [];
  firmware_date = [];
  proto_version = b'p' ∷ [];
  proto_date = [];
  system_version = [];
}

abbrev pub controller : ControllerDescription
controller = record {
  system_version = [];
  platform = [];
  reset_reason = [];
  firmware = record {
    firmware_version = b'g' ∷ [];
    proto_version = b'p' ∷ [];
    firmware_date = [];
    proto_date = [];
  };
  device = record { device_id = b'a' ∷ b'1' ∷ [] };
}

abbrev up : List Call
up = connect ConnectionKind.usb (b'u' ∷ []) ∷ []

abbrev calls : List Call
calls =
    enable true
    ∷ connect ConnectionKind.usb (b'u' ∷ [])
    ∷ acknowledge config controller
    ∷ synchronize
    ∷ []

run-IsConsistent_example : IsConsistent (run (init config fw) calls)
run-IsConsistent_example = run-IsConsistent config fw calls

check_compatible_iff_example :
    (check_compatible (set_acknowledged config controller (run (init config fw) up)) ≡ ok true)
    ↔ IsCompatible config fw controller
check_compatible_iff_example =
    check_compatible_iff config fw up controller
      (unfold run in unfold apply in unfold set_connected in refl)

-- A synchronized controller is updated, and disconnects.
abbrev flashed : List Call
flashed =
    enable true
    ∷ connect ConnectionKind.usb (b'u' ∷ [])
    ∷ acknowledge config controller
    ∷ synchronize
    ∷ update
    ∷ disconnect
    ∷ []

calls_advance_example : Advances (init config fw) flashed
calls_advance_example = calls_advance config fw flashed (
    unfold init in
    unfold apply in
    unfold set_connected in
    unfold set_acknowledged in
    unfold set_enabled in unfold set_synchronized in (tt, (refl, (refl, (tt, (refl, (tt, tt)))))))

late_handshake_example :
    let s =
      run
        (init config fw)
        (enable true ∷ connect ConnectionKind.usb (b'u' ∷ []) ∷ disconnect ∷ []) in
    let t = set_acknowledged config controller s in
    (t.connection_status ≡ ConnectionStatus.acknowledged)
    × (t.disconnected_ev ≡ true)
    × (u : StateMachine) × (set_synchronized t ≡ ok u)
    × (u.connection_status ≡ ConnectionStatus.synchronized)
    × (u.connected_ev ≡ false)
late_handshake_example =
    late_handshake config controller
      (run (init config fw)
        (enable true ∷ connect ConnectionKind.usb (b'u' ∷ []) ∷ disconnect ∷ []))
      (run-IsConsistent config fw
        (enable true ∷ connect ConnectionKind.usb (b'u' ∷ []) ∷ disconnect ∷ []))
      (unfold run in unfold apply in unfold set_disconnected in refl)
      (unfold run in unfold apply in unfold set_disconnected in refl)
