-- ===== src/Models/Reset.antt =====
-- models.py: the reasons of a controller reset, by the hexadecimal value in the handshake.
use brewblox_devcon_spark.Base.{
  ◌-◌, ◌&&◌, List, [], ◌∷◌, map, Option, none, some, Text, text_eq, leb, if◌then◌else◌,
}
use brewblox_devcon_spark.Base.Codes.{codes}

-- `str.upper()` for ASCII letters; the values are hexadecimal.
unfoldable pub upper : Text → Text
upper = map (λ c. if leb b'a' c && leb c b'z' then c - 32 else c)

-- The members of an enumeration: value and name.
abbrev pub Members : Type 0
Members = List (Text × Text)

-- `str(Enum(value))`; `none` is a ValueError.
unfoldable pub name_of : Members → Text → Option Text
name_of [] value = none
name_of ((v, name) ∷ members) value = if text_eq v value then some name else name_of members value

abbrev pub reset_reasons : Members
reset_reasons =
    (codes "00", codes "NONE")
    ∷ (codes "0A", codes "UNKNOWN")
    ∷ (codes "14", codes "PIN_RESET")
    ∷ (codes "1E", codes "POWER_MANAGEMENT")
    ∷ (codes "28", codes "POWER_DOWN")
    ∷ (codes "32", codes "POWER_BROWNOUT")
    ∷ (codes "3C", codes "WATCHDOG")
    ∷ (codes "46", codes "UPDATE")
    ∷ (codes "50", codes "UPDATE_ERROR")
    ∷ (codes "5A", codes "UPDATE_TIMEOUT")
    ∷ (codes "64", codes "FACTORY_RESET")
    ∷ (codes "6E", codes "SAFE_MODE")
    ∷ (codes "78", codes "DFU_MODE")
    ∷ (codes "82", codes "PANIC")
    ∷ (codes "8C", codes "USER")
    ∷ []

abbrev pub reset_data : Members
reset_data =
    (codes "00", codes "NOT_SPECIFIED")
    ∷ (codes "01", codes "WATCHDOG")
    ∷ (codes "02", codes "CBOX_RESET")
    ∷ (codes "03", codes "CBOX_FACTORY_RESET")
    ∷ (codes "04", codes "FIRMWARE_UPDATE_FAILED")
    ∷ (codes "05", codes "LISTENING_MODE_EXIT")
    ∷ (codes "06", codes "FIRMWARE_UPDATE_SUCCESS")
    ∷ (codes "07", codes "OUT_OF_MEMORY")
    ∷ []
