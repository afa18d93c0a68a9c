-- ===== src/Codec/Libraries.antt =====
-- What the processor takes from libraries: the descriptors of google.protobuf with the field options
-- of brewblox.proto, Python's float arithmetic, and the libraries for IP addresses, dates and units.
use brewblox_devcon_spark.Base.{ℕ, Bool, Option, String}
use brewblox_devcon_spark.Base.Json.{Json}
use brewblox_devcon_spark.Base.Exn.{Result}
use brewblox_devcon_spark.Base.Str.{ℤ}
use brewblox_devcon_spark.TimeUtils.Moments.{Dates}
use brewblox_devcon_spark.Codec.Bytes.{Base64}

-- `field.GetOptions().Extensions[brewblox_pb2.field]`
pub record FieldOpts : Type 0 where
  pub unit : ℕ
  pub objtype : ℕ
  pub scale : ℕ
  pub readonly : Bool
  pub ignored : Bool
  pub hexed : Bool
  pub hexstr : Bool
  pub datetime : Bool
  pub ipv4address : Bool
  pub stored : Bool
  pub logged : Bool
  pub null_if_zero : Bool
  pub omit_if_zero : Bool

-- Descriptors of messages and fields. `is_repeated` is the test of the label, `is_int` that of
-- `cpp_type`.
pub record Protobuf : Type 1 where
  pub Descriptor : Type 0
  pub FieldDescriptor : Type 0
  pub fields_by_name : Descriptor → String → Option FieldDescriptor
  pub number : FieldDescriptor → ℕ
  pub message_type : FieldDescriptor → Option Descriptor
  pub is_repeated : FieldDescriptor → Bool
  pub is_int : FieldDescriptor → Bool
  pub options : FieldDescriptor → FieldOpts
  pub unit_name : ℕ → Result String
  pub type_name : ℕ → Result String

-- `times` is `v * n`, `divide` is `v / n`, `rounded` is `int(round(v))`; `truncate` is `int` of a
-- float, given by its bits.
pub record Numbers : Type 0 where
  pub times : Json → ℕ → Result Json
  pub divide : Json → ℕ → Result Json
  pub rounded : Json → Result Json
  pub truncate : ℕ → Result ℤ

-- `ip_address` is `int(ipaddress.ip_address(v))`, `compressed` the text of an address.
pub record Ip : Type 0 where
  pub ip_address : Json → Result ℕ
  pub compressed : ℕ → String

-- `Quantity(amount, from).to(unit).magnitude` of the library `pint`.
pub record Pint : Type 0 where
  pub quantity : Json → Json → String → Result Json

pub record Libraries : Type 1 where
  pub pb : Protobuf
  pub numbers : Numbers
  pub base64 : Base64
  pub ip : Ip
  pub dates : Dates
  pub pint : Pint
