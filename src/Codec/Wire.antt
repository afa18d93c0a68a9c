-- ===== src/Codec/Wire.antt =====
-- codec/__init__.py: `encode_request`, `decode_request`, `encode_response` and `decode_response`, and
-- the codec as the commander uses it.
use brewblox_devcon_spark.Base.{Bool, List, [], ◌∷◌, ◌++◌, none, Text, false, ◌≡◌, refl, append-nil}
use brewblox_devcon_spark.Base.Exn.{Result, ok, err, ◌>>=◌, decode_exception}
use brewblox_devcon_spark.Base.Str.{split, contains}
use brewblox_devcon_spark.Base.Codes.{codes}
use brewblox_devcon_spark.Models.Messages.{IntermediateRequest, IntermediateResponse}
use brewblox_devcon_spark.Command.{Codec}
use brewblox_devcon_spark.Command.Handshake.{split-one}
use brewblox_devcon_spark.Codec.Bytes.{Bytes, Base64}
use brewblox_devcon_spark.Codec.Libraries.{Libraries}
use brewblox_devcon_spark.Codec.Units.{Converter}
use brewblox_devcon_spark.Codec.Lookup.{Messages, Tables}
use brewblox_devcon_spark.Codec.Payloads.{
  Format, encode_payload, decode_payload, as_encode_exception,
}

-- The messages Request and Response of command.proto: serializing the dump of a model, and the model
-- made of a parsed message.
pub record CommandFormat : Type 0 where
  pub serialize_request : IntermediateRequest → Result Bytes
  pub parse_request : Bytes → Result IntermediateRequest
  pub serialize_response : IntermediateResponse → Result Bytes
  pub parse_response : Bytes → Result IntermediateResponse

-- Every exception becomes a DecodeException.
as_decode_exception : {A : Type 0} → Result A → Result A
as_decode_exception (err e) = err decode_exception
as_decode_exception (ok a) = ok a

-- `b''.join((b64decode(subs) for subs in subs_list))`
decode_parts : Base64 → List Text → Result Bytes
decode_parts base64 [] = ok []
decode_parts base64 (s ∷ ss) =
    base64.b64decode_text s >>= (λ bs. decode_parts base64 ss >>= (λ rest. ok (bs ++ rest)))

module _ (base64 : Base64) (C : CommandFormat) where
  unfoldable pub encode_request : IntermediateRequest → Result Text
  encode_request request =
      as_encode_exception
        (C.serialize_request request >>= (λ bytes. ok (codes (base64.b64encode bytes))))

  unfoldable pub decode_request : Text → Result IntermediateRequest
  unfolding as_decode_exception decode_parts split
  decode_request b64_encoded =
      as_decode_exception (decode_parts base64 (split b',' b64_encoded) >>= C.parse_request)

  unfoldable pub encode_response : IntermediateResponse → Result Text
  encode_response response =
      as_encode_exception
        (C.serialize_response response >>= (λ bytes. ok (codes (base64.b64encode bytes))))

  unfoldable pub decode_response : Text → Result IntermediateResponse
  unfolding as_decode_exception decode_parts split
  decode_response b64_encoded =
      as_decode_exception (decode_parts base64 (split b',' b64_encoded) >>= C.parse_response)

-- The codec that a commander gets.
pub codec :
    (L : Libraries)
    → Format L
    → Messages (L.pb)
    → Tables (L.pb)
    → CommandFormat
    → Converter
    → Bool
    → Codec
codec L F M tables C table own = record {
  encode_payload = λ p. encode_payload L F M tables table own p none;
  decode_payload = λ p mode. ok (decode_payload L F M tables table own p mode none);
  encode_request = encode_request (L.base64) C;
  decode_response = decode_response (L.base64) C;
}

-- A request that `encode_request` has written is read by `decode_request`, when Base64 text has no
-- comma and is decoded to the bytes that were encoded, and the message is parsed to what was
-- serialized.
pub decode_request-encode_request :
    (base64 : Base64) (C : CommandFormat) (r : IntermediateRequest) (bytes : Bytes)
    → C.serialize_request r ≡ ok bytes
    → C.parse_request bytes ≡ ok r
    → base64.b64decode_text (codes (base64.b64encode bytes)) ≡ ok bytes
    → contains b',' (codes (base64.b64encode bytes)) ≡ false
    → (encode_request base64 C r >>= decode_request base64 C) ≡ ok r
unfolding encode_request decode_request decode_parts as_decode_exception
decode_request-encode_request base64 C r bytes written parses decodes comma =
    rw
      (written, split-one (codes (base64.b64encode bytes)) comma, decodes, append-nil bytes, parses)
      refl
