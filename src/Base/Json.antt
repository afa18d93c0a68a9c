-- ===== src/Base/Json.antt =====
-- The values that stand in block data: those of JSON, with Python's truth of them.
use Prim.Native.Nat.{ℕ, ◌^◌}
use Prim.Native.String.{String}
use brewblox_devcon_spark.Base.Tests.{str_eq, ◌==◌, if◌then◌else◌}
use brewblox_devcon_spark.Base.Exn.{Result, ok, err, value_error, key_error, type_error}
use brewblox_devcon_spark.Base.Str.{ℤ, pos, negsuc}
use mathlib.Core.Bool.{Bool, true, false, not, ◌||◌}
use mathlib.Core.Option.{Option, none, some}

-- `negative n` is the number -(n + 1); a float is its bit pattern.
mutual
  pub data Json : Type 0 where
    null : Json
    boolean : Bool → Json
    number : ℕ → Json
    negative : ℕ → Json
    float : ℕ → Json
    text : String → Json
    array : Items → Json
    object : Fields → Json

  pub data Items : Type 0 where
    nil : Items
    item : Json → Items → Items

  pub data Fields : Type 0 where
    end : Fields
    field : String → Json → Fields → Fields

-- `bool(v)`
unfoldable pub truthy : Json → Bool
truthy null = false
truthy (boolean b) = b
truthy (number n) = not (n == 0)
truthy (negative n) = true
truthy (float bits) = not (bits == 0 || bits == 2 ^ 63)
truthy (text s) = not (str_eq s "")
truthy (array nil) = false
truthy (array _) = true
truthy (object end) = false
truthy (object _) = true

-- `d.get(k)`
unfoldable pub get : String → Fields → Option Json
get k end = none
get k (field j v fs) = if str_eq j k then some v else get k fs

-- `d.get(k)` where a missing key is None
unfoldable pub get_or_null : String → Fields → Json
get_or_null k end = null
get_or_null k (field j v fs) = if str_eq j k then v else get_or_null k fs

or_key_error : Option Json → Result Json
or_key_error none = err key_error
or_key_error (some v) = ok v

-- `v[k]` for a text key
unfoldable pub subscript : Json → String → Result Json
unfolding or_key_error get
subscript (object fs) k = or_key_error (get k fs)
subscript _ k = err type_error

-- A field of a pydantic model that is declared `str`.
unfoldable pub as_text : Json → Result String
as_text (text s) = ok s
as_text _ = err value_error

unfoldable pub equals_text : Json → String → Bool
equals_text (text s) t = str_eq s t
equals_text _ t = false

-- An integer as a value.
abbrev pub from_int : ℤ → Json
from_int (pos n) = number n
from_int (negsuc n) = negative n

-- `d[k] = v`
unfoldable pub set_field : String → Json → Fields → Fields
set_field k v end = field k v end
set_field k v (field j w fs) =
    let rest = set_field k v fs in if str_eq j k then field j v fs else field j w rest
