-- ===== src/StateMachine.antt =====
-- state_machine.py: the status description, and the events that the other parts wait for. An
-- `asyncio.Event` is its flag: a waiter goes on when it is set.
pub mod Invariant
pub mod Gate
pub mod Progress
use brewblox_devcon_spark.Base.{
  Bool, true, false, not, ◌||◌, List, [], ◌∷◌, Option, none, some, Text, text_eq, if◌then◌else◌,
}
use brewblox_devcon_spark.Base.Exn.{
  Result, ok, err, runtime_error, incompatible_firmware, invalid_device_id,
}
use brewblox_devcon_spark.Models.{
  ServiceDescription, ControllerDescription, DiscoveryKind, ConnectionKind, ConnectionStatus,
  FirmwareError, IdentityError, StatusDescription, firmware_description, device_description,
}
use brewblox_devcon_spark.Models.Config.{DiscoveryType, ServiceConfig, FirmwareConfig}

pub record StateMachine : Type 0 where
  pub status_desc : StatusDescription
  pub open status_desc use *
  pub enabled_ev : Bool
  pub connected_ev : Bool
  pub acknowledged_ev : Bool
  pub synchronized_ev : Bool
  pub disconnected_ev : Bool
  pub updating_ev : Bool

-- `x or ''`
pub or_empty : Option Text → Text
or_empty none = []
or_empty (some t) = t

-- `str(config.discovery).upper()`
upper_name : DiscoveryType → DiscoveryKind
upper_name DiscoveryType.all = DiscoveryKind.all
upper_name DiscoveryType.usb = DiscoveryKind.usb
upper_name DiscoveryType.mdns = DiscoveryKind.mdns
upper_name DiscoveryType.mqtt = DiscoveryKind.mqtt

-- The truth of an optional text.
is_given : Option Text → Bool
is_given none = false
is_given (some []) = false
is_given (some (c ∷ t)) = true

unfoldable pub init : ServiceConfig → FirmwareConfig → StateMachine
unfolding or_empty upper_name is_given firmware_description device_description
init config fw_config = record {
  status_desc = record {
    enabled = false;
    service = record {
      name = config.name;
      firmware =
          firmware_description fw_config.firmware_version fw_config.proto_version
            fw_config.firmware_date fw_config.proto_date;
      device = device_description (or_empty config.device_id);
    };
    controller = none;
    address = none;
    discovery_kind =
        if config.simulation || config.mock
        then DiscoveryKind.sim
        else if is_given config.device_host
        then DiscoveryKind.address
        else upper_name config.discovery;
    connection_kind = none;
    connection_status = ConnectionStatus.disconnected;
    firmware_error = none;
    identity_error = none;
  };
  enabled_ev = false;
  connected_ev = false;
  acknowledged_ev = false;
  synchronized_ev = false;
  disconnected_ev = true;
  updating_ev = false;
}

identity_check : Option IdentityError → Result Bool
identity_check (some IdentityError.incompatible) = err invalid_device_id
identity_check _ = ok true

firmware_check : Option FirmwareError → Result Bool → Result Bool
firmware_check (some FirmwareError.incompatible) later = err incompatible_firmware
firmware_check _ later = later

unfoldable pub check_compatible : StateMachine → Result Bool
unfolding identity_check firmware_check
check_compatible s = firmware_check s.firmware_error (identity_check s.identity_error)

unfoldable pub set_enabled : Bool → StateMachine → StateMachine
set_enabled enabled s = record s {
  status_desc = record s.status_desc { enabled = enabled };
  enabled_ev = enabled;
}

unfoldable pub set_connected : ConnectionKind → Text → StateMachine → StateMachine
set_connected connection_kind address s = record s {
  status_desc = record s.status_desc {
    address = some address;
    connection_kind = some connection_kind;
    connection_status = ConnectionStatus.connected;
  };
  connected_ev = true;
  acknowledged_ev = false;
  synchronized_ev = false;
  disconnected_ev = false;
}

-- The locals of `set_acknowledged`.
pub wildcard_id : ServiceDescription → Bool
wildcard_id service = text_eq service.device.device_id []

pub compatible_firmware : ServiceConfig → ServiceDescription → ControllerDescription → Bool
compatible_firmware config service controller =
    text_eq service.firmware.proto_version controller.firmware.proto_version
    || config.skip_version_check

pub matching_firmware : ServiceDescription → ControllerDescription → Bool
matching_firmware service controller =
    text_eq service.firmware.firmware_version controller.firmware.firmware_version

pub compatible_identity : ServiceDescription → ControllerDescription → Bool
unfolding wildcard_id
compatible_identity service controller =
    text_eq service.device.device_id controller.device.device_id || wildcard_id service

unfoldable pub set_acknowledged :
    ServiceConfig → ControllerDescription → StateMachine → StateMachine
unfolding compatible_firmware matching_firmware compatible_identity wildcard_id
set_acknowledged config controller s = if s.synchronized_ev then s else record s {
  status_desc = record s.status_desc {
    controller = some controller;
    connection_status = ConnectionStatus.acknowledged;
    firmware_error =
        if not (compatible_firmware config s.service controller)
        then some FirmwareError.incompatible
        else if not (matching_firmware s.service controller)
        then some FirmwareError.mismatched
        else none;
    identity_error =
        if not (compatible_identity s.service controller)
        then some IdentityError.incompatible
        else if wildcard_id s.service
        then some IdentityError.wildcard_id
        else none;
  };
  acknowledged_ev = true;
}

unfoldable pub set_synchronized : StateMachine → Result StateMachine
set_synchronized s =
    if not s.acknowledged_ev
    then err runtime_error
    else ok (record s {
      status_desc = record s.status_desc { connection_status = ConnectionStatus.synchronized };
      synchronized_ev = true;
    })

pub set_updating : StateMachine → StateMachine
set_updating s = record s {
  status_desc = record s.status_desc { connection_status = ConnectionStatus.updating };
  updating_ev = true;
}

unfoldable pub set_disconnected : StateMachine → StateMachine
set_disconnected s = record s {
  status_desc = record s.status_desc {
    controller = none;
    address = none;
    connection_kind = none;
    connection_status = ConnectionStatus.disconnected;
    firmware_error = none;
    identity_error = none;
  };
  connected_ev = false;
  acknowledged_ev = false;
  synchronized_ev = false;
  updating_ev = false;
  disconnected_ev = true;
}
