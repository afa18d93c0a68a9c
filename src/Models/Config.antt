-- ===== src/Models/Config.antt =====
-- models.py: the part of the service configuration that the modelled code reads. A duration is its
-- number of microseconds, and a float factor is the ratio of two integers that it stands for.
use brewblox_devcon_spark.Base.{ℕ, Bool, Option, Text}

pub data DiscoveryType : Type 0 where
  all usb mdns mqtt : DiscoveryType

pub record Ratio : Type 0 where
  pub numerator : ℕ
  pub denominator : ℕ

pub record ServiceConfig : Type 0 where
  pub name : Text
  pub device_id : Option Text
  pub discovery : DiscoveryType
  pub device_host : Option Text
  pub mock : Bool
  pub simulation : Bool
  pub connect_interval : ℕ
  pub connect_interval_max : ℕ
  pub connect_backoff : Ratio
  pub skip_version_check : Bool

pub record FirmwareConfig : Type 0 where
  pub firmware_version : Text
  pub firmware_date : Text
  pub proto_version : Text
  pub proto_date : Text
  pub system_version : Text

-- const.py: the first number of a block that is not a system block.
abbrev pub user_nid_start : ℕ
user_nid_start = 100
