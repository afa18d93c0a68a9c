-- ===== src/Bloxfield.antt =====
-- codec/bloxfield.py: reflection on the typed objects in block data.
use brewblox_devcon_spark.Base.{Bool, true, false, ◌&&◌, not, Option, none, some}
use brewblox_devcon_spark.Base.Json.{Json, null, object, truthy, get, get_or_null, equals_text}

is_some_field : Option Json → Bool
is_some_field none = false
is_some_field (some v) = true

is_null : Json → Bool
is_null null = true
is_null _ = false

unfoldable pub is_bloxfield : Json → Bool
unfolding is_some_field get
is_bloxfield (object fs) = is_some_field (get "__bloxtype" fs)
is_bloxfield _ = false

unfoldable pub is_link : Json → Bool
unfolding get_or_null equals_text
is_link (object fs) = equals_text (get_or_null "__bloxtype" fs) "Link"
is_link _ = false

-- The truth of the value that the function returns.
unfoldable pub is_defined_link : Json → Bool
unfolding is_link get_or_null truthy
is_defined_link (object fs) =
    is_link (object fs) && truthy (get_or_null "id" fs) && truthy (get_or_null "type" fs)
is_defined_link _ = false

unfoldable pub is_quantity : Json → Bool
unfolding get_or_null equals_text
is_quantity (object fs) = equals_text (get_or_null "__bloxtype" fs) "Quantity"
is_quantity _ = false

unfoldable pub is_defined_quantity : Json → Bool
unfolding is_quantity is_null get_or_null truthy
is_defined_quantity (object fs) =
    is_quantity (object fs)
    && not (is_null (get_or_null "value" fs))
    && truthy (get_or_null "unit" fs)
is_defined_quantity _ = false
