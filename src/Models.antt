-- ===== src/Models.antt =====
-- models.py: the records and literals that the service passes around. Text fields that the service
-- looks into are lists of code points; the validators of pydantic are functions of their own.
pub mod Config
pub mod Reset
pub mod Messages
use brewblox_devcon_spark.Base.{
  ℕ, ◌+◌, Bool, true, false, ◌&&◌, List, map, Option, none, some, Text, take, leb, if◌then◌else◌,
}

pub record FirmwareDescription : Type 0 where
  pub firmware_version : Text
  pub proto_version : Text
  pub firmware_date : Text
  pub proto_date : Text

-- `v[:8]`
unfoldable pub truncate_version : Text → Text
truncate_version v = take 8 v

-- `FirmwareDescription(...)`, with its validator.
unfoldable pub firmware_description : Text → Text → Text → Text → FirmwareDescription
firmware_description firmware_version proto_version firmware_date proto_date = record {
  firmware_version = truncate_version firmware_version;
  proto_version = truncate_version proto_version;
  firmware_date = firmware_date;
  proto_date = proto_date;
}

pub record DeviceDescription : Type 0 where
  pub device_id : Text

-- `str.lower()` for ASCII letters; device IDs are hexadecimal.
unfoldable pub lower : Text → Text
lower = map (λ c. if leb b'A' c && leb c b'Z' then c + 32 else c)

-- `DeviceDescription(...)`, with its validator.
unfoldable pub device_description : Text → DeviceDescription
device_description device_id = record { device_id = lower device_id }

pub record ServiceDescription : Type 0 where
  pub name : Text
  pub firmware : FirmwareDescription
  pub device : DeviceDescription

pub record ControllerDescription : Type 0 where
  pub system_version : Text
  pub platform : Text
  pub reset_reason : Text
  pub firmware : FirmwareDescription
  pub device : DeviceDescription

pub data DiscoveryKind : Type 0 where
  sim address usb mdns mqtt all : DiscoveryKind

pub data ConnectionKind : Type 0 where
  mock sim usb tcp mqtt : ConnectionKind

pub data ConnectionStatus : Type 0 where
  disconnected connected acknowledged synchronized updating : ConnectionStatus

pub data FirmwareError : Type 0 where
  incompatible mismatched : FirmwareError

pub data IdentityError : Type 0 where
  incompatible wildcard_id : IdentityError

pub record StatusDescription : Type 0 where
  pub enabled : Bool
  pub service : ServiceDescription
  pub controller : Option ControllerDescription
  pub address : Option Text
  pub discovery_kind : DiscoveryKind
  pub connection_kind : Option ConnectionKind
  pub connection_status : ConnectionStatus
  pub firmware_error : Option FirmwareError
  pub identity_error : Option IdentityError
