-- ===== src/Codec/Values.antt =====
-- codec/processor.py: the conversions of single values, `_convert_value` of `pre_encode` and of
-- `post_decode`.
use brewblox_devcon_spark.Base.{
  ℕ, ◌+◌, ◌*◌, ◌/◌, ◌%◌, ◌^◌, Bool, true, false, not, ◌&&◌, ◌||◌, Option, none, some, String, ltb,
  ◌==◌, if◌then◌else◌, str_eq,
}
use brewblox_devcon_spark.Base.Exn.{Result, ok, err, ◌>>=◌, value_error, type_error, overflow_error}
use brewblox_devcon_spark.Base.Str.{ℤ, pos, negsuc, parse_int}
use brewblox_devcon_spark.Base.Codes.{codes}
use brewblox_devcon_spark.Base.Json.{
  Json, null, boolean, number, negative, float, text, object, end, field, get_or_null, subscript,
  from_int,
}
use brewblox_devcon_spark.TimeUtils.Moments.{DateFormatOpt, seconds, serialize_datetime}
use brewblox_devcon_spark.Codec.Bytes.{hex_to_int, int_to_hex, hex_to_b64, b64_to_hex}
use brewblox_devcon_spark.Codec.Libraries.{FieldOpts, Libraries, Numbers}
use brewblox_devcon_spark.Codec.Units.{Converter, to_sys_value, to_user_value}

pub data MetadataOpt : Type 0 where
  postfix typed : MetadataOpt

-- The bytes of a 32-bit number in the other order: `htonl` and `ntohl` on a little-endian host.
unfoldable pub swap_bytes : ℕ → Result ℕ
swap_bytes n =
    if ltb n (2 ^ 32)
    then ok (n % 256 * 2 ^ 24 + n / 2 ^ 8 % 256 * 2 ^ 16 + n / 2 ^ 16 % 256 * 2 ^ 8 + n / 2 ^ 24)
    else err overflow_error

or_value_error : Option ℤ → Result ℤ
or_value_error none = err value_error
or_value_error (some i) = ok i

-- `int(v)`
unfoldable pub as_int : Numbers → Json → Result ℤ
unfolding or_value_error parse_int
as_int numbers (boolean b) = ok (pos (if b then 1 else 0))
as_int numbers (number n) = ok (pos n)
as_int numbers (negative n) = ok (negsuc n)
as_int numbers (float bits) = numbers.truncate bits
as_int numbers (text s) = or_value_error (parse_int (codes s))
as_int numbers _ = err type_error

-- `value == 0`
unfoldable pub is_zero : Json → Bool
is_zero (boolean b) = not b
is_zero (number n) = n == 0
is_zero (float bits) = bits == 0 || bits == 2 ^ 63
is_zero _ = false

-- A function of a text.
unfoldable pub on_text : (String → Result Json) → Json → Result Json
on_text f (text s) = f s
on_text f _ = err type_error

as_address : Json → Result ℕ
as_address (boolean b) = ok (if b then 1 else 0)
as_address (number n) = ok n
as_address (negative n) = err overflow_error
as_address _ = err type_error

-- A step that an option asks for.
abbrev pub when : Bool → (Json → Result Json) → Json → Result Json
when true f v = f v
when false f v = ok v

abbrev pub is_set : ℕ → Bool
is_set n = not (n == 0)

-- `postfix or None`
abbrev pub or_null : String → Json
or_null s = if str_eq s "" then null else text s

module _ (L : Libraries) where
  unfoldable pub ipv4_to_int : Json → Result Json
  unfolding swap_bytes
  ipv4_to_int v = L.ip.ip_address v >>= (λ n. swap_bytes n >>= λ m. ok (number m))

  unfoldable pub int_to_ipv4 : Json → Result Json
  unfolding swap_bytes as_address
  int_to_ipv4 v = as_address v >>= (λ n. swap_bytes n >>= λ m. ok (text (L.ip.compressed m)))

  unfoldable pub encode_unit : Converter → Json → String → Json → Result Json
  unfolding to_sys_value subscript get_or_null
  encode_unit table (object fs) unit_type unit =
      subscript (object fs) "value"
      >>= (λ user_value. to_sys_value L.pint table user_value unit_type (get_or_null "unit" fs))
  encode_unit table value unit_type unit = to_sys_value L.pint table value unit_type unit

  unfoldable pub link_id : Json → Result Json
  unfolding subscript
  link_id (object fs) = subscript (object fs) "id"
  link_id v = ok v

  -- `_convert_value` of `pre_encode`
  unfoldable pub encode_value : Converter → FieldOpts → Bool → String → Json → Result Json
  unfolding encode_unit link_id on_text hex_to_int hex_to_b64 ipv4_to_int serialize_datetime
  encode_value table options is_int suffix v =
      when (is_set options.unit)
        (λ v. L.pb.unit_name options.unit >>= λ unit_name.
          encode_unit table v unit_name (or_null suffix))
        v
      >>= when (is_set options.objtype) link_id
      >>= when (is_set options.scale) (λ v. L.numbers.times v options.scale)
      >>= when options.hexed (on_text (λ s. hex_to_int s >>= λ i. ok (from_int i)))
      >>= when options.hexstr (on_text (λ s. hex_to_b64 L.base64 s >>= λ t. ok (text t)))
      >>= when options.ipv4address ipv4_to_int
      >>= when options.datetime (λ v. serialize_datetime L.dates v seconds)
      >>= when is_int L.numbers.rounded

  quantity : Bool → String → Json → Json
  quantity readonly unit v = object (
      field "__bloxtype" (text "Quantity") (
        field "unit" (text unit)
          (field "value" v (if readonly then field "readonly" (boolean true) end else end))))

  link : String → Json → Json
  link type v =
      object (field "__bloxtype" (text "Link") (field "type" (text type) (field "id" v end)))

  unfoldable pub decode_hex : Json → Result Json
  unfolding as_int int_to_hex
  decode_hex v = as_int L.numbers v >>= (λ i. int_to_hex i >>= λ s. ok (text s))

  -- What `_convert_value` of `post_decode` does with a value that has no metadata.
  unfoldable pub decode_plain : FieldOpts → DateFormatOpt → Json → Result Json
  unfolding decode_hex on_text b64_to_hex int_to_ipv4 serialize_datetime
  decode_plain options fmt v =
      if options.hexed
      then decode_hex v
      else if options.hexstr
      then on_text (λ s. b64_to_hex L.base64 s >>= λ t. ok (text t)) v
      else if options.ipv4address
      then int_to_ipv4 v
      else if options.datetime
      then serialize_datetime L.dates v fmt
      else ok v

  with_metadata : MetadataOpt → (Json → Json) → Json → Json
  with_metadata typed wrap v = wrap v
  with_metadata postfix wrap v = v

  -- `_convert_value` of `post_decode`; `hidden` is `excluded or null_value`.
  unfoldable pub decode_scaled :
      Converter
      → FieldOpts
      → Bool
      → MetadataOpt
      → DateFormatOpt
      → String
      → String
      → String
      → Json
      → Result Json
  unfolding quantity link decode_plain with_metadata to_user_value
  decode_scaled table options hidden meta fmt link_type system_unit user_unit v =
      if is_set options.unit
      then (if hidden then ok null else to_user_value L.pint table v system_unit)
        >>= (λ u. ok (with_metadata meta (quantity options.readonly user_unit) u))
      else if is_set options.objtype
      then ok (with_metadata meta (link link_type) (if hidden then null else v))
      else if hidden
      then ok null
      else decode_plain options fmt v

  unfoldable pub decode_value :
      Converter
      → FieldOpts
      → Bool
      → MetadataOpt
      → DateFormatOpt
      → String
      → String
      → String
      → Json
      → Result Json
  unfolding decode_scaled is_zero
  decode_value table options excluded meta fmt link_type system_unit user_unit v =
      let null_value = options.null_if_zero && is_zero v in
      when (is_set options.scale) (λ v. L.numbers.divide v options.scale) v
      >>= decode_scaled table options (excluded || null_value) meta fmt link_type system_unit
          user_unit
