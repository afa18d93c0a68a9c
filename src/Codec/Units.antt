-- ===== src/Codec/Units.antt =====
-- codec/unit_conversion.py: the table of units for a temperature unit of the user.
use brewblox_devcon_spark.Base.{[], ◌∷◌, Option, none, some, String, if◌then◌else◌}
use brewblox_devcon_spark.Base.Exn.{Result, ok, err, ◌>>=◌, key_error, invalid_input}
use brewblox_devcon_spark.Base.Dict.{Dict, lookup}
use brewblox_devcon_spark.Base.Json.{Json, number, text, truthy}
use brewblox_devcon_spark.Codec.Libraries.{Pint}
use Prim.Native.String.{◌++◌}

-- A format of `FORMATS`: a text without a temperature, or what stands before and behind it.
pub data Format : Type 0 where
  plain : String → Format
  around : String → String → Format

unfoldable pub formats : Dict Format
formats =
    ("NotSet", plain "")
    ∷ ("Celsius", around "" "")
    ∷ ("InverseCelsius", around "1 / " "")
    ∷ ("Second", plain "second")
    ∷ ("Minute", plain "minute")
    ∷ ("Hour", plain "hour")
    ∷ ("DeltaCelsius", around "delta_" "")
    ∷ ("DeltaCelsiusPerSecond", around "delta_" " / second")
    ∷ ("DeltaCelsiusPerMinute", around "delta_" " / minute")
    ∷ ("DeltaCelsiusPerHour", around "delta_" " / hour")
    ∷ ("DeltaCelsiusMultSecond", around "delta_" " * second")
    ∷ ("DeltaCelsiusMultMinute", around "delta_" " * minute")
    ∷ ("DeltaCelsiusMultHour", around "delta_" " * hour")
    ∷ ("Ohm", plain "ohm")
    ∷ ("MilliBar", plain "millibar")
    ∷ []

-- `s.format(temp=temp)`
unfoldable pub format : String → Format → String
format temp (plain s) = s
format temp (around front back) = front ++ (temp ++ back)

abbrev pub system_temp : String
system_temp = "degC"

pub record UnitMapping : Type 0 where
  pub key : String
  pub system_value : String
  pub user_value : String

unfoldable pub mappings : String → Dict Format → Dict UnitMapping
unfolding format
mappings user_temp [] = []
mappings user_temp ((k, f) ∷ rest) =
    (k, record { key = k; system_value = format system_temp f; user_value = format user_temp f })
    ∷ mappings user_temp rest

unfoldable pub derived_table : String → Dict UnitMapping
unfolding mappings formats
derived_table user_temp = mappings user_temp formats

-- The table of a `UnitConverter`.
abbrev pub Converter : Type 0
Converter = Dict UnitMapping

abbrev pub init : Converter
init = derived_table system_temp

or_key_error : Option UnitMapping → Result UnitMapping
or_key_error none = err key_error
or_key_error (some m) = ok m

-- `self._table[id]`
unfoldable pub mapping_of : Converter → String → Result UnitMapping
unfolding or_key_error lookup
mapping_of table id = or_key_error (lookup id table)

unfoldable pub temperature : Converter → Result String
unfolding mapping_of
temperature table = mapping_of table "Celsius" >>= λ m. ok (m.user_value)

module _ (pint : Pint) where
  -- Any error of a conversion is an InvalidInput.
  check : Result Json → Result (Unit {0})
  check (err e) = err invalid_input
  check (ok v) = ok tt

  check_all : Dict UnitMapping → Result (Unit {0})
  unfolding check
  check_all [] = ok tt
  check_all ((id, m) ∷ rest) =
      check (pint.quantity (number 1) (text (m.user_value)) (m.system_value))
      >>= (λ _. check_all rest)

  replaced : Result (Unit {0}) → Converter → Converter → Result (Unit {0}) × Converter
  replaced (err e) cfg table = (err e, table)
  replaced (ok _) cfg table = (ok tt, cfg)

  -- The setter of `temperature`.
  unfoldable pub set_temperature : String → Converter → Result (Unit {0}) × Converter
  unfolding check_all replaced derived_table
  set_temperature temp table = let cfg = derived_table temp in replaced (check_all cfg) cfg table

  -- `custom or mapping.user_value`
  unfoldable pub to_sys_value : Converter → Json → String → Json → Result Json
  unfolding mapping_of truthy
  to_sys_value table amount id custom = mapping_of table id >>= (λ m.
      pint.quantity amount (if truthy custom then custom else text (m.user_value)) (m.system_value))

  unfoldable pub to_user_value : Converter → Json → String → Result Json
  unfolding mapping_of
  to_user_value table amount id =
      mapping_of table id >>= (λ m. pint.quantity amount (text (m.system_value)) (m.user_value))

unfoldable pub to_sys_unit : Converter → String → Result String
unfolding mapping_of
to_sys_unit table id = mapping_of table id >>= λ m. ok (m.system_value)

unfoldable pub to_user_unit : Converter → String → Result String
unfolding mapping_of
to_user_unit table id = mapping_of table id >>= λ m. ok (m.user_value)
