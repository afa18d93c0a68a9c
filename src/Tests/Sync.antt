-- ===== src/Tests/Sync.antt =====
-- A synchronization with a controller that answers the first prompt: one that is compatible, and one
-- with another protocol version.
use brewblox_devcon_spark.Base.{ℕ, suc, true, List, [], ◌∷◌, none, some, String, ◌≡◌, refl}
use brewblox_devcon_spark.Base.Exn.{Result, ok, err, incompatible_firmware}
use brewblox_devcon_spark.Base.Json.{number, object, end, field}
use brewblox_devcon_spark.Models.{ControllerDescription, ConnectionKind, truncate_version, lower}
use brewblox_devcon_spark.Models.Messages.{FirmwareBlock}
use brewblox_devcon_spark.StateMachine.{
  check_compatible, set_connected, set_acknowledged, set_disconnected, init,
}
use brewblox_devcon_spark.Codec.Units.{init as units}
use brewblox_devcon_spark.Synchronization.{
  Env, Synchronizer, get_ready, handshake_rounds, synchronize, sync_controller, run, wait,
}
use brewblox_devcon_spark.Synchronization.Outcome.{IsSynchronized, synchronize-ok, run-refused}
use brewblox_devcon_spark.Tests.Status.{config, fw, controller}

abbrev sysinfo : FirmwareBlock
sysinfo = record {
  id = some "SystemInfo";
  nid = 2;
  type = some "SysInfo";
  content = some (
      field "uptime" (object (field "value" (number 5) end))
        (field "updatesPerSecond" (number 9) end));
}

-- Every command is answered with the system information; the world counts them.
abbrev env : ControllerDescription → Env (List (String × ℕ)) ℕ
env c = record {
  block_store = record {
    get = λ s k. none;
    inverse = λ s n. none;
    put = λ k n s. (k, n) ∷ s;
    delete = λ k s. s;
    clear = λ s. [];
  };
  pint = record { quantity = λ v from to. ok v };
  cmder = λ method w m. (ok (sysinfo ∷ []), (suc w, m));
  reset_connection = λ w m. (ok tt, (w, set_disconnected m));
  wait_connected = λ w m. (w, set_connected ConnectionKind.usb (b'u' ∷ []) m);
  wait_disconnected = λ w m. (w, set_disconnected m);
  handshake_wait = λ w m. (true, (w, set_acknowledged config c m));
  rounds = λ w. 3;
  legacy_names = λ w m. (ok [], (w, m));
  remove_legacy_names = λ w m. (ok tt, (w, m));
  duration_text = λ v. ok [];
}

abbrev start : Synchronizer (List (String × ℕ)) ℕ
start = record {
  settings = record { enabled = true; temperature = "degC"; tz_posix = "UTC0" };
  state = init config fw;
  store = [];
  converter = units;
  world = 0;
}

works : (synchronize (env controller) start).0 ≡ ok tt
unfolding synchronize set_acknowledged init check_compatible set_connected truncate_version lower
works = refl

synchronize-ok_example :
    IsSynchronized (env controller) (synchronize (env controller) start).1
    × ((m : Synchronizer (List (String × ℕ)) ℕ) × (check_compatible m.state ≡ ok true)
        × (synchronize (env controller) start ≡ sync_controller (env controller) m))
synchronize-ok_example = synchronize-ok (env controller) start works

abbrev other : ControllerDescription
other = record controller {
  firmware = record {
    firmware_version = b'g' ∷ [];
    proto_version = b'q' ∷ [];
    firmware_date = [];
    proto_date = [];
  };
}

is_ready : (get_ready (env other) start).0 ≡ ok tt
unfolding get_ready init set_connected truncate_version lower
is_ready = refl

abbrev shaken : Result (Unit {0}) × Synchronizer (List (String × ℕ)) ℕ
shaken = handshake_rounds (env other) 3 (get_ready (env other) start).1

answers : shaken.0 ≡ ok tt
unfolding handshake_rounds
answers = refl

is_incompatible : check_compatible shaken.1.state ≡ err incompatible_firmware
unfolding get_ready handshake_rounds set_acknowledged init check_compatible set_connected
    truncate_version lower
is_incompatible = refl

run-refused_example :
    run (env other) start ≡ wait (env other) (λ w m. (w, set_disconnected m)) shaken.1
run-refused_example =
    run-refused (env other) start incompatible_firmware is_ready answers is_incompatible
