-- ===== src/Codec/Payloads.antt =====
-- codec/__init__.py: `encode_payload` and `decode_payload`.
pub mod Identity
use brewblox_devcon_spark.Base.{
  ℕ, zero, suc, ◌+◌, ◌/◌, ◌%◌, Bool, true, false, not, ◌&&◌, ◌||◌, List, [], ◌∷◌, Option, none,
  some, String, ◌==◌, str_eq, if◌then◌else◌,
}
use brewblox_devcon_spark.Base.Exn.{
  Exn, Result, ok, err, ◌>>=◌, value_error, type_error, attribute_error, stop_iteration,
  encode_exception,
}
use brewblox_devcon_spark.Base.Json.{
  Json, null, number, text, object, Fields, end, field, subscript, as_text,
}
use brewblox_devcon_spark.Models.Messages.{
  BlockTypeRef, type_int, type_str, EncodedPayload, DecodedPayload, MaskMode, ReadMode, default,
  stored, logged,
}
use brewblox_devcon_spark.Codec.Bytes.{Bytes}
use brewblox_devcon_spark.Codec.Libraries.{Libraries}
use brewblox_devcon_spark.Codec.Units.{Converter}
use brewblox_devcon_spark.Codec.Encode.{pre_encode}
use brewblox_devcon_spark.Codec.Decode.{post_decode}
use brewblox_devcon_spark.Codec.Lookup.{
  Messages, Tables, ObjectLookup, InterfaceLookup, object_of_value, interface_of_value,
  object_of_type, interface_of_type,
}
use Prim.Native.String.{◌∷◌ as ◌then_char◌, ◌++◌ as ◌then_text◌, char_at}

-- google.protobuf: the conversions between JSON, messages and bytes. The flag of `message_to_dict` is
-- `use_integers_for_enums`; the message of an exception is a parameter too.
pub record Format (L : Libraries) : Type 1 where
  pub Message : Type 0
  pub parse_dict : L.pb.Descriptor → Fields → Result Message
  pub serialize_to_string : Message → Bytes
  pub parse_from_string : L.pb.Descriptor → Bytes → Result Message
  pub message_to_dict : Bool → Message → Fields
  pub strex : Exn → String

decimal : ℕ → ℕ → String → String
decimal zero n behind = behind
decimal (suc fuel) n behind =
    let digit = char_at "0123456789" (n % 10) in
    let more = decimal fuel (n / 10) (digit then_char behind) in
    if n / 10 == 0 then digit then_char behind else more

-- A block type in a message.
unfoldable pub show_type : Option BlockTypeRef → String
unfolding decimal
show_type none = "None"
show_type (some (type_int n)) = decimal (suc n) n ""
show_type (some (type_str s)) = s

unfoldable pub type_json : Option BlockTypeRef → Json
type_json none = null
type_json (some (type_int n)) = number n
type_json (some (type_str s)) = text s

-- `next` without a default.
or_stop : {A : Type 0} → Option A → Result A
or_stop none = err stop_iteration
or_stop (some a) = ok a

-- The bytes of a payload of a deprecated block.
deprecated_content : Option Fields → Result String
unfolding subscript as_text
deprecated_content none = err type_error
deprecated_content (some fs) = subscript (object fs) "bytes" >>= as_text

-- A known type, or that of the test object.
known_value : String → Option ℕ → Result ℕ
known_value t (some n) = ok n
known_value t none = if str_eq t "EdgeCase" then ok 9001 else err encode_exception

-- Every exception becomes an EncodeException.
abbrev pub as_encode_exception : {A : Type 0} → Result A → Result A
as_encode_exception (err e) = err encode_exception
as_encode_exception (ok a) = ok a

uses_integers : ReadMode → Bool
uses_integers default = false
uses_integers stored = true
uses_integers logged = true

-- `own` is the `_filter_values` of the processor.
module _ (L : Libraries) (F : Format L) (M : Messages (L.pb)) (tables : Tables (L.pb))
    (table : Converter) (own : Bool) where
  bare : DecodedPayload → Option BlockTypeRef → String → EncodedPayload
  bare payload block_type content = record {
    block_id = payload.block_id;
    block_type = block_type;
    name = payload.name;
    content = content;
    mask_mode = MaskMode.no_mask;
    mask_fields = [];
  }

  -- `ParseDict`; `pre_encode` returns a payload with content.
  parsed : L.pb.Descriptor → Option Fields → Result F.Message
  parsed desc none = err attribute_error
  parsed desc (some fs) = F.parse_dict desc fs

  encoded : DecodedPayload → ObjectLookup (L.pb) → F.Message → EncodedPayload
  encoded p impl message = record {
    block_id = p.block_id;
    block_type = some (type_int impl.type_int);
    name = p.name;
    content = L.base64.b64encode (F.serialize_to_string message);
    mask_mode = p.mask_mode;
    mask_fields = p.mask_fields;
  }

  encode_object : DecodedPayload → ObjectLookup (L.pb) → Option Bool → Result EncodedPayload
  unfolding pre_encode parsed encoded
  encode_object payload impl filter_values =
      pre_encode L table own impl.message_cls payload filter_values
      >>= (λ p. parsed impl.message_cls p.content >>= (λ message. ok (encoded p impl message)))

  -- Behind the choice of the type.
  encode_content : DecodedPayload → ℕ → Option Fields → Option Bool → Result EncodedPayload
  unfolding or_stop encode_object interface_of_value object_of_value bare
  encode_content payload value none filter_values =
      or_stop (interface_of_value value (tables.combined))
      >>= (λ impl. ok (bare payload (some (type_int impl.type_int)) ""))
  encode_content payload value (some fs) filter_values =
      or_stop (object_of_value (L.pb) value (tables.objects))
      >>= (λ impl. encode_object payload impl filter_values)

  encode_type : DecodedPayload → Option String → Option Bool → Result EncodedPayload
  unfolding known_value deprecated_content encode_content bare
  encode_type payload none filter_values = ok (bare payload none "")
  encode_type payload (some t) filter_values = known_value t (M.value t) >>= (λ value.
      if str_eq t "Deprecated"
      then deprecated_content payload.content
        >>= (λ bytes. ok (bare payload (some (type_int value)) bytes))
      else encode_content payload value payload.content filter_values)

  unfoldable pub encode_payload : DecodedPayload → Option Bool → Result EncodedPayload
  unfolding encode_type
  encode_payload payload filter_values =
      as_encode_exception (encode_type payload payload.block_type filter_values)

  stub : EncodedPayload → String → Option Fields → DecodedPayload
  stub payload block_type content = record {
    block_id = payload.block_id;
    block_type = some block_type;
    name = payload.name;
    content = content;
    mask_mode = MaskMode.no_mask;
    mask_fields = [];
  }

  decoded : EncodedPayload → ObjectLookup (L.pb) → Fields → DecodedPayload
  decoded payload impl content = record {
    block_id = payload.block_id;
    block_type = some impl.type_str;
    name = payload.name;
    content = some content;
    mask_mode = payload.mask_mode;
    mask_fields = payload.mask_fields;
  }

  decode_object :
      EncodedPayload → ObjectLookup (L.pb) → ReadMode → Option Bool → Result DecodedPayload
  unfolding post_decode uses_integers decoded
  decode_object payload impl mode filter_values = L.base64.b64decode payload.content >>= (λ bytes.
      F.parse_from_string impl.message_cls bytes >>= (λ message.
        post_decode L table own impl.message_cls
          (decoded payload impl (F.message_to_dict (uses_integers mode) message)) mode
          filter_values))

  unknown_type : EncodedPayload → DecodedPayload
  unfolding stub show_type
  unknown_type payload = stub payload "UnknownType" (
      some (
        field "error" (text ("No codec entry found for " then_text show_type payload.block_type))
          end))

  decode_interface : EncodedPayload → Option InterfaceLookup → DecodedPayload
  unfolding stub unknown_type
  decode_interface payload none = unknown_type payload
  decode_interface payload (some impl) = stub payload impl.type_str none

  decode_type :
      EncodedPayload → Option (ObjectLookup (L.pb)) → ReadMode → Option Bool → Result DecodedPayload
  unfolding decode_object decode_interface interface_of_type
  decode_type payload (some impl) mode filter_values = decode_object payload impl mode filter_values
  decode_type payload none mode filter_values =
      ok (decode_interface payload (interface_of_type payload.block_type (tables.interfaces)))

  is_number : ℕ → Option BlockTypeRef → Bool
  is_number n (some (type_int m)) = m == n
  is_number n _ = false

  decode_known : EncodedPayload → Option ℕ → ReadMode → Option Bool → Result DecodedPayload
  unfolding decode_type stub is_number object_of_type
  decode_known payload none mode filter_values = err value_error
  decode_known payload (some deprecated) mode filter_values =
      if is_number deprecated payload.block_type
      then ok (stub payload "Deprecated" (some (field "bytes" (text payload.content) end)))
      else decode_type payload (object_of_type (L.pb) payload.block_type (tables.objects)) mode
          filter_values

  -- An exception becomes a stub.
  or_error_object : EncodedPayload → Result DecodedPayload → DecodedPayload
  unfolding stub type_json
  or_error_object payload (ok p) = p
  or_error_object payload (err e) = stub payload "ErrorObject" (
      some
        (field "error" (text (F.strex e)) (field "blockType" (type_json payload.block_type) end)))

  unfoldable pub decode_payload : EncodedPayload → ReadMode → Option Bool → DecodedPayload
  unfolding or_error_object decode_known
  decode_payload payload mode filter_values =
      or_error_object payload (decode_known payload (M.value "Deprecated") mode filter_values)
