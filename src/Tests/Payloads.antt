-- ===== src/Tests/Payloads.antt =====
-- A message with a submessage: a hexadecimal address, a readonly output, and a sensor, which is a
-- link.
use brewblox_devcon_spark.Base.{
  ℕ, true, false, [], ◌∷◌, ◌++◌, Option, none, some, String, ◌≡◌, refl, str_eq, if◌then◌else◌,
  arith,
}
use brewblox_devcon_spark.Base.Exn.{ok, err, ◌>>=◌, value_error}
use brewblox_devcon_spark.Base.Str.{pos}
use brewblox_devcon_spark.Base.Json.{number, text, object, Fields, end, field}
use brewblox_devcon_spark.Models.Messages.{
  type_int, EncodedPayload, DecodedPayload, MaskMode, ReadMode,
}
use brewblox_devcon_spark.TimeUtils.Moments.{iso8601}
use brewblox_devcon_spark.Codec.Bytes.{unhexlify, hexlify}
use brewblox_devcon_spark.Codec.Flags.{
  pack_bit_flags, unpack_bit_flags, elem_int, unpack-pack_bit_flags,
}
use brewblox_devcon_spark.Codec.Libraries.{FieldOpts, Protobuf, Libraries}
use brewblox_devcon_spark.Codec.Keys.{split_key}
use brewblox_devcon_spark.Codec.Units.{init}
use brewblox_devcon_spark.Codec.Values.{postfix, typed, encode_value, decode_value}
use brewblox_devcon_spark.Codec.Encode.{pre_encode}
use brewblox_devcon_spark.Codec.Walk.{message}
use brewblox_devcon_spark.Codec.Encode.Sent.{AllSent, PlainMessages}
use brewblox_devcon_spark.Codec.Encode.Sent.Whole.{pre_encode-AllSent}
use brewblox_devcon_spark.Codec.Encode.Notes.{notes}
use brewblox_devcon_spark.Codec.Encode.Masks.{sent_mask, pre_encode-notes}
use brewblox_devcon_spark.Codec.Decode.{decoded_key}
use brewblox_devcon_spark.Codec.Decode.RoundTrip.{split_key-decoded_key, encode_value-decode_value}
use brewblox_devcon_spark.Codec.Lookup.{Messages, Tables}
use brewblox_devcon_spark.Codec.Payloads.{Format, decode_payload}
use brewblox_devcon_spark.Codec.Payloads.Identity.{Keeps, decode_payload-Keeps}

abbrev plain : FieldOpts
plain = record {
  unit = 0;
  objtype = 0;
  scale = 0;
  readonly = false;
  ignored = false;
  hexed = false;
  hexstr = false;
  datetime = false;
  ipv4address = false;
  stored = true;
  logged = true;
  null_if_zero = false;
  omit_if_zero = false;
}

data Field : Type 0 where
  settings address output sensor : Field

data Message : Type 0 where
  block inner : Message

abbrev field_of : Message → String → Option Field
field_of block k = if str_eq k "settings" then some settings else none
field_of inner k =
    if str_eq k "address"
    then some address
    else if str_eq k "output"
    then some output
    else if str_eq k "sensor"
    then some sensor
    else none

abbrev opts : Field → FieldOpts
opts settings = plain
opts address = record plain { hexed = true }
opts output = record plain { readonly = true }
opts sensor = record plain { objtype = 2 }

abbrev message_of : Field → Option Message
message_of settings = some inner
message_of _ = none

abbrev tag : Field → ℕ
tag settings = 1
tag address = 1
tag output = 2
tag sensor = 3

abbrev pb : Protobuf
pb = record {
  Descriptor = Message;
  FieldDescriptor = Field;
  fields_by_name = field_of;
  number = tag;
  message_type = message_of;
  is_repeated = λ f. false;
  is_int = λ f. false;
  options = opts;
  unit_name = λ n. ok "NotSet";
  type_name = λ n. ok "TempSensorInterface";
}

-- Base64 is taken for hexadecimal, and no arithmetic is used.
abbrev libraries : Libraries
libraries = record {
  pb = pb;
  numbers = record {
    times = λ v n. ok v;
    divide = λ v n. ok v;
    rounded = ok;
    truncate = λ bits. err value_error;
  };
  base64 = record { b64encode = hexlify; b64decode = unhexlify; b64decode_text = λ t. ok t };
  ip = record { ip_address = λ v. err value_error; compressed = λ n. "" };
  dates = record {
    Moment = ℕ;
    parse = λ s. err value_error;
    above_limit = λ bits. false;
    floor_1000 = λ bits. bits;
    from_timestamp = λ v. ok 0;
    timestamp = pos;
    timestamp_ms = pos;
    isoformat = λ n. "";
  };
  pint = record { quantity = λ v from to. ok v };
}

abbrev content : Fields
content =
    field "settings"
      (object (
        field "address" (text "0a00000000000000")
          (field "output" (number 5) (field "sensor<TempSensorInterface>" (number 7) end))))
      end

abbrev patch : DecodedPayload
patch = record {
  block_id = 100;
  block_type = some "Block";
  name = none;
  content = some content;
  mask_mode = MaskMode.inclusive;
  mask_fields = [];
}

abbrev encoded : DecodedPayload
encoded = record patch {
  content =
      some (
        field "settings" (object (field "address" (number 10) (field "sensor" (number 7) end)))
          end);
  mask_fields = (1 ∷ 1 ∷ []) ∷ (1 ∷ 3 ∷ []) ∷ [];
}

patched : pre_encode libraries init true block patch none ≡ ok encoded
unfolding pre_encode
patched = refl

pre_encode-notes_example :
    (1 ∷ 1 ∷ []) ∷ (1 ∷ 3 ∷ []) ∷ []
    ≡ [] ++ notes pb (sent_mask MaskMode.inclusive true libraries) (some block) content []
pre_encode-notes_example =
    pre_encode-notes libraries init true block patch none content encoded refl patched

plain_messages : PlainMessages pb
plain_messages settings desc h = (refl, refl, refl, refl, refl, refl, refl, refl)
plain_messages address desc h = cc
plain_messages output desc h = cc
plain_messages sensor desc h = cc

pre_encode-AllSent_example :
    (fs : Fields) × (encoded.content ≡ some fs) × AllSent pb true (message block) (object fs)
pre_encode-AllSent_example =
    pre_encode-AllSent libraries init true block patch none encoded plain_messages patched

split_key-decoded_key_example :
    split_key (decoded_key postfix (opts sensor) "sensor" "TempSensorInterface" "")
    ≡ ok ("sensor", "TempSensorInterface")
split_key-decoded_key_example =
    split_key-decoded_key (opts sensor) "s" "ensor" "TempSensorInterface" "" refl refl refl

encode_value-decode_value_example :
    (decode_value libraries init (opts address) false typed iso8601 "" "NotSet" "" (number 10)
      >>= encode_value libraries init (opts address) true "")
    ≡ ok (number 10)
encode_value-decode_value_example =
    encode_value-decode_value libraries init (opts address) true "" typed iso8601 "" "NotSet" "" 10
      (refl, refl, refl, refl, refl, refl, refl, refl) (omega arith) refl

unpack-pack_bit_flags_example :
    (p : ℕ) × (pack_bit_flags (pos 7 ∷ pos 2 ∷ []) ≡ ok p)
    × ((i : ℕ) → elem_int i (unpack_bit_flags (pos p)) ≡ elem_int i (pos 7 ∷ pos 2 ∷ []))
unpack-pack_bit_flags_example = unpack-pack_bit_flags (7 ∷ 2 ∷ []) (omega arith, (omega arith, tt))

abbrev value_of : String → Option ℕ
value_of s = if str_eq s "Deprecated" then some 321 else if str_eq s "Block" then some 300 else none

abbrev messages : Messages pb
messages = record {
  value = value_of;
  block_types = [];
  message_types = (300, block) ∷ [];
  edge_case = block;
}

abbrev tables : Tables pb
tables = record {
  objects = record { type_str = "Block"; type_int = 300; message_cls = block } ∷ [];
  interfaces = [];
  combined = [];
}

abbrev format : Format libraries
format = record {
  Message = ℕ;
  parse_dict = λ desc fs. ok 1;
  serialize_to_string = λ m. m ∷ [];
  parse_from_string = λ desc bs. ok 1;
  message_to_dict = λ use_integers m. end;
  strex = λ e. "";
}

abbrev raw : EncodedPayload
raw = record {
  block_id = 100;
  block_type = some (type_int 300);
  name = some "sensor";
  content = "zz";
  mask_mode = MaskMode.no_mask;
  mask_fields = [];
}

decode_payload-Keeps_example :
    Keeps (decode_payload libraries format messages tables init true raw ReadMode.default none) raw
decode_payload-Keeps_example =
    decode_payload-Keeps libraries format messages tables init true raw ReadMode.default none
