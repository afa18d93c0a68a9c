-- ===== src/MockConnection.antt =====
-- connection/mock_connection.py: an in-process stand-in for the firmware. The codec and the clock are
-- parameters; what the connection passes to its callbacks is kept in `events` and returned.
pub mod Handlers
use brewblox_devcon_spark.Base.{
  ◌≡◌, ap, ℕ, zero, suc, ◌+◌, Bool, true, false, not, ◌&&◌, ◌||◌, List, [], ◌∷◌, ◌++◌, Option, none,
  some, String, Text, ltb, leb, ◌==◌, str_eq, if◌then◌else◌,
}
use brewblox_devcon_spark.Base.Exn.{
  Exn, Result, ok, err, ◌>>=◌, value_error, key_error, attribute_error, type_error,
}
pub use brewblox_devcon_spark.Base.Steps.{◌then◌, done, lift}
use brewblox_devcon_spark.Base.Steps.{Stateful}
use brewblox_devcon_spark.Base.Codes.{codes}
use brewblox_devcon_spark.Base.Table.{Table, find, put, remove}
use brewblox_devcon_spark.Base.Json.{
  Json, null, number, text, array, object, Items, nil, item, Fields, end, field, get, set_field,
}
use brewblox_devcon_spark.Bloxfield.{is_bloxfield, is_defined_link, is_defined_quantity}
use brewblox_devcon_spark.Models.Config.{FirmwareConfig, user_nid_start}
use brewblox_devcon_spark.Models.Messages.{
  BlockTypeRef, type_int, type_str, EncodedPayload, DecodedPayload, MaskMode, ReadMode, Opcode,
  ErrorCode, IntermediateRequest, IntermediateResponse,
}
use brewblox_devcon_spark.Command.{Codec}
use brewblox_devcon_spark.Command.Handshake.{joined}

-- `FirmwareBlock` of models.py: the type and the data are required.
pub record Block : Type 0 where
  pub id : Option String
  pub nid : ℕ
  pub type : String
  pub content : Fields

abbrev channels : Items
channels = item (object (field "id" (number 1) end)) (
    item (object (field "id" (number 2) end)) (
      item (object (field "id" (number 3) end)) (
        item (object (field "id" (number 4) end)) (item (object (field "id" (number 5) end)) nil))))

unfoldable pub default_blocks : Table Block
default_blocks =
    (
      2,
      record {
        id = some "SystemInfo";
        nid = 2;
        type = "SysInfo";
        content = field "deviceId" (text "FACADE") (
            field "timeZone" (text "Africa/Casablanca")
              (field "updatesPerSecond" (number 9001) end));
      },
    )
    ∷ (5, record { id = some "WiFiSettings"; nid = 5; type = "WiFiSettings"; content = end })
    ∷ (7, record { id = some "DisplaySettings"; nid = 7; type = "DisplaySettings"; content = end })
    ∷ (
      19,
      record {
        id = some "SparkPins";
        nid = 19;
        type = "Spark3Pins";
        content = field "channels" (array channels) end;
      },
    )
    ∷ []

-- `next_error` is the list NEXT_ERROR of the module, `start_time` a time of the clock.
pub record MockConnection : Type 0 where
  pub start_time : ℕ
  pub id_counter : ℕ
  pub blocks : Table Block
  pub next_error : List (Option ErrorCode)
  pub events : List Text

abbrev pub init : ℕ → List (Option ErrorCode) → MockConnection
init start errors = record {
  start_time = start;
  id_counter = user_nid_start;
  blocks = default_blocks;
  next_error = errors;
  events = [];
}

-- The numbers of `update_systime`, by the time of the start and the time of the call.
pub record Clock : Type 0 where
  pub uptime : ℕ → ℕ → Json
  pub system_time : ℕ → ℕ → Json

-- Code that changes the connection, also where it raises.
abbrev pub Step : Type 0 → Type 0
Step A = Stateful MockConnection A

-- The error and the payload of a response.
abbrev pub Reply : Type 0
Reply = ErrorCode × List EncodedPayload

abbrev pub refuse : ErrorCode → Step Reply
refuse error = done (error, [])

or_key_error : Option Block → Result Block
or_key_error none = err key_error
or_key_error (some b) = ok b

-- `self._blocks[nid]`
unfoldable pub block_at : ℕ → MockConnection → Result Block
unfolding find or_key_error
block_at nid c = or_key_error (find nid c.blocks)

pub block_at-find :
    (nid : ℕ) (c : MockConnection) (b : Block) → find nid c.blocks ≡ some b → block_at nid c ≡ ok b
unfolding block_at or_key_error
block_at-find nid c b is = ap or_key_error is

unfoldable pub put_block : ℕ → Block → MockConnection → MockConnection
unfolding put
put_block nid b c = record c { blocks = put nid b c.blocks }

-- What `_merge_blocks` takes over.
unfoldable pub is_merged : Json → Bool
unfolding is_bloxfield is_defined_link is_defined_quantity
is_merged null = false
is_merged v = is_defined_link v || is_defined_quantity v || not (is_bloxfield v)

-- `_merge_blocks` over the keys of the destination, and the destination as it is then: a key that the
-- source does not have ends it.
merge_keys : Fields → Fields → Fields → Result (Unit {0}) × Fields
unfolding is_merged get set_field
merge_keys end src dest = (ok tt, dest)
merge_keys (field key v keys) src dest = elim (get key src) [
  | none ↦ (err key_error, dest)
  | some new ↦ merge_keys keys src (if is_merged new then set_field key new dest else dest)
]

unfoldable pub merge_blocks : Block → Block → Result (Unit {0}) × Block
unfolding merge_keys
merge_blocks dest src =
    let (r, merged) = merge_keys dest.content src.content dest.content in
    (r, record dest { content = merged })

unfoldable pub welcome_text : FirmwareConfig → Text → Text
welcome_text fw device_id = joined (codes "!BREWBLOX") (
    fw.firmware_version
    ∷ fw.proto_version
    ∷ fw.firmware_date
    ∷ fw.proto_date
    ∷ fw.system_version
    ∷ codes "mock"
    ∷ codes "00"
    ∷ codes "00"
    ∷ device_id
    ∷ [])

pub update_block :
    (Fields → Fields) → Result Block → ℕ → MockConnection → Result (Unit {0}) × MockConnection
unfolding put_block
update_block f (err e) nid c = (err e, c)
update_block f (ok b) nid c = (ok tt, put_block nid (record b { content = f b.content }) c)

is_user : Block → Bool
is_user b = leb user_nid_start b.nid

user_blocks : Table Block → List Block
unfolding is_user
user_blocks [] = []
user_blocks ((nid, b) ∷ t) = let rest = user_blocks t in if is_user b then b ∷ rest else rest

all_blocks : Table Block → List Block
all_blocks [] = []
all_blocks ((nid, b) ∷ t) = b ∷ all_blocks t

same_name : Option String → Option String → Bool
same_name none none = true
same_name (some a) (some b) = str_eq a b
same_name _ _ = false

-- The first block with the name.
named : Option String → Table Block → Option Block
unfolding same_name
named name [] = none
named name ((nid, b) ∷ t) = if same_name b.id name then some b else named name t

-- `match and match.nid != nid`
is_taken : Option Block → ℕ → Bool
is_taken none nid = false
is_taken (some b) nid = not (b.nid == nid)

has_name : Option String → Bool
has_name none = false
has_name (some s) = not (str_eq s "")

is_type_name : Option BlockTypeRef → String → Bool
is_type_name (some (type_str t)) s = str_eq t s
is_type_name _ s = false
