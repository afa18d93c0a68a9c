-- ===== src/Codec/Payloads/Identity.antt =====
-- codec/__init__.py: which exceptions leave the codec, and what it keeps of a payload.
use brewblox_devcon_spark.Base.{
  ℕ, Bool, [], Option, none, some, String, ◌≡◌, refl, sym, ap, subst, str_eq, inl, inr, if-cases,
  ==_iff,
}
use brewblox_devcon_spark.Base.Exn.{Result, ok, err, >>=-eq-ok, encode_exception}
use brewblox_devcon_spark.Base.Json.{text, Fields, end, field}
use brewblox_devcon_spark.Models.Messages.{
  BlockTypeRef, type_int, EncodedPayload, DecodedPayload, MaskMode, ReadMode,
}
use brewblox_devcon_spark.Codec.Libraries.{Libraries}
use brewblox_devcon_spark.Codec.Units.{Converter}
use brewblox_devcon_spark.Codec.Encode.{pre_encode}
use brewblox_devcon_spark.Codec.Decode.{post_decode}
use brewblox_devcon_spark.Codec.Lookup.{
  Messages, Tables, ObjectLookup, InterfaceLookup, object_of_value, interface_of_value,
  interface_of_type,
}
use brewblox_devcon_spark.Codec.Payloads.{
  Format, encode_payload, encode_type, encode_content, encode_object, decode_payload, decode_known,
  decode_type, decode_object, decode_interface, unknown_type, or_error_object, bare, stub,
  is_number, or_stop, encoded, decoded, parsed, uses_integers, known_value, deprecated_content,
  as_encode_exception,
}

-- The two payloads have the same number and name.
abbrev pub Keeps : DecodedPayload → EncodedPayload → Type 0
Keeps p e = (e.block_id ≡ p.block_id) × (e.name ≡ p.name)

module _ (L : Libraries) (F : Format L) (M : Messages (L.pb)) (tables : Tables (L.pb))
    (table : Converter) (own : Bool) where
  post_decode-Keeps :
      (desc : L.pb.Descriptor) (p : DecodedPayload) (mode : ReadMode) (filter_values : Option Bool)
      → (out : DecodedPayload) (e : EncodedPayload)
      → post_decode L table own desc p mode filter_values ≡ ok out
      → Keeps p e
      → Keeps out e
  unfolding post_decode
  post_decode-Keeps desc p mode filter_values out e h keeps =
      let (fs, _, h) = >>=-eq-ok _ (λ fs. ok (record p { content = some fs })) h in
      let same : record p { content = some fs } ≡ out = cc in subst (λ q. Keeps q e) same keeps

  decode_object-Keeps :
      (e : EncodedPayload) (impl : ObjectLookup (L.pb)) (mode : ReadMode)
      → (filter_values : Option Bool) (out : DecodedPayload)
      → decode_object L F M tables table own e impl mode filter_values ≡ ok out
      → Keeps out e
  unfolding decode_object decoded
  decode_object-Keeps e impl mode filter_values out h =
      let (bytes, _, h) = >>=-eq-ok (L.base64.b64decode e.content) _ h in
      let (message, _, h) = >>=-eq-ok (F.parse_from_string impl.message_cls bytes) _ h in
      post_decode-Keeps impl.message_cls
        (decoded L F M tables table own e impl (F.message_to_dict (uses_integers mode) message))
        mode filter_values out e h (refl, refl)

  interface-Keeps :
      (e : EncodedPayload) (found : Option InterfaceLookup)
      → Keeps (decode_interface L F M tables table own e found) e
  unfolding decode_interface unknown_type stub
  interface-Keeps e none = (refl, refl)
  interface-Keeps e (some impl) = (refl, refl)

  decode_type-Keeps :
      (e : EncodedPayload) (impl : Option (ObjectLookup (L.pb))) (mode : ReadMode)
      → (filter_values : Option Bool) (out : DecodedPayload)
      → decode_type L F M tables table own e impl mode filter_values ≡ ok out
      → Keeps out e
  unfolding decode_type
  decode_type-Keeps e (some impl) mode filter_values out h =
      decode_object-Keeps e impl mode filter_values out h
  decode_type-Keeps e none mode filter_values out h =
      let found = interface_of_type e.block_type (tables.interfaces) in
      let same : decode_interface L F M tables table own e found ≡ out = cc in
      subst (λ q. Keeps q e) same (interface-Keeps e found)

  decode_known-Keeps :
      (e : EncodedPayload) (deprecated : Option ℕ) (mode : ReadMode) (filter_values : Option Bool)
      → (r : Result DecodedPayload)
      → decode_known L F M tables table own e deprecated mode filter_values ≡ r
      → Keeps (or_error_object L F M tables table own e r) e
  unfolding or_error_object stub decode_known
  decode_known-Keeps e deprecated mode filter_values (err x) h = (refl, refl)
  decode_known-Keeps e none mode filter_values (ok out) h = cc
  decode_known-Keeps e (some n) mode filter_values (ok out) h =
      elim (if-cases (is_number L F M tables table own n e.block_type) _ _ (ok out) h) [
        | inl (_, h) ↦
            let same : stub L F M tables table own e "Deprecated"
                  (some (field "bytes" (text e.content) end))
                ≡ out =
              cc in
            subst (λ q. Keeps q e) same (refl, refl)
        | inr (_, h) ↦ decode_type-Keeps e _ mode filter_values out h
      ]

  -- `decode_payload` raises nothing: for every payload it returns a payload with the same number and
  -- name, also where the type is unknown or the content cannot be decoded.
  pub decode_payload-Keeps :
      (e : EncodedPayload) (mode : ReadMode) (filter_values : Option Bool)
      → Keeps (decode_payload L F M tables table own e mode filter_values) e
  unfolding decode_payload
  decode_payload-Keeps e mode filter_values =
      decode_known-Keeps e (M.value "Deprecated") mode filter_values _ refl

  bare-Keeps :
      (p : DecodedPayload) (t : Option BlockTypeRef) (content : String) (e : EncodedPayload)
      → ok (bare L F M tables table own p t content) ≡ ok e
      → Keeps p e
  unfolding bare
  bare-Keeps p t content e h =
      let same : bare L F M tables table own p t content ≡ e = cc in
      subst (Keeps p) same (refl, refl)

  pre_encode-Keeps :
      (desc : L.pb.Descriptor) (p : DecodedPayload) (filter_values : Option Bool)
      → (q : DecodedPayload) → pre_encode L table own desc p filter_values ≡ ok q
      → (q.block_id ≡ p.block_id) × (q.name ≡ p.name)
  unfolding pre_encode
  pre_encode-Keeps desc p filter_values q h =
      let (r, _, h) =
        >>=-eq-ok _ (λ r. ok (record p { content = some r.0; mask_fields = r.1 })) h in
      let same : record p { content = some r.0; mask_fields = r.1 } ≡ q = cc in
      (ap (λ x. x.block_id) (sym same), ap (λ x. x.name) (sym same))

  encode_object-Keeps :
      (p : DecodedPayload) (impl : ObjectLookup (L.pb)) (filter_values : Option Bool)
      → (e : EncodedPayload) → encode_object L F M tables table own p impl filter_values ≡ ok e
      → Keeps p e
  unfolding encode_object encoded
  encode_object-Keeps p impl filter_values e h =
      let (q, pre, h) = >>=-eq-ok (pre_encode L table own impl.message_cls p filter_values) _ h in
      let (message, _, h) =
        >>=-eq-ok (parsed L F M tables table own impl.message_cls q.content) _ h in
      let same : encoded L F M tables table own q impl message ≡ e = cc in
      subst (Keeps p) same (pre_encode-Keeps impl.message_cls p filter_values q pre)

  encode_content-Keeps :
      (p : DecodedPayload) (value : ℕ) (content : Option Fields) (filter_values : Option Bool)
      → (e : EncodedPayload)
      → encode_content L F M tables table own p value content filter_values ≡ ok e
      → Keeps p e
  unfolding encode_content
  encode_content-Keeps p value none filter_values e h =
      let (impl, _, h) = >>=-eq-ok (or_stop (interface_of_value value (tables.combined))) _ h in
      bare-Keeps p _ "" e h
  encode_content-Keeps p value (some fs) filter_values e h =
      let (impl, _, h) = >>=-eq-ok (or_stop (object_of_value (L.pb) value (tables.objects))) _ h in
      encode_object-Keeps p impl filter_values e h

  encode_type-Keeps :
      (p : DecodedPayload) (t : Option String) (filter_values : Option Bool) (e : EncodedPayload)
      → encode_type L F M tables table own p t filter_values ≡ ok e
      → Keeps p e
  unfolding encode_type
  encode_type-Keeps p none filter_values e h = bare-Keeps p none "" e h
  encode_type-Keeps p (some t) filter_values e h =
      let (value, _, h) = >>=-eq-ok (known_value t (M.value t)) _ h in
      elim (if-cases (str_eq t "Deprecated") _ _ (ok e) h) [
        | inl (_, h) ↦
            let (bytes, _, h) = >>=-eq-ok (deprecated_content p.content) _ h in
            bare-Keeps p _ bytes e h
        | inr (_, h) ↦ encode_content-Keeps p value p.content filter_values e h
      ]

  -- What `encode_payload` may do.
  pub IsEncoded : DecodedPayload → Result EncodedPayload → Type 0
  IsEncoded p (err x) = x ≡ encode_exception
  IsEncoded p (ok e) = Keeps p e

  outcome-IsEncoded :
      (p : DecodedPayload) (filter_values : Option Bool) (r : Result EncodedPayload)
      → encode_type L F M tables table own p p.block_type filter_values ≡ r
      → IsEncoded p (as_encode_exception r)
  unfolding IsEncoded
  outcome-IsEncoded p filter_values (err x) h = refl
  outcome-IsEncoded p filter_values (ok e) h = encode_type-Keeps p p.block_type filter_values e h

  -- `encode_payload` raises an EncodeException, or returns a payload with the number and the name of
  -- what it was given.
  pub encode_payload-IsEncoded :
      (p : DecodedPayload) (filter_values : Option Bool)
      → IsEncoded p (encode_payload L F M tables table own p filter_values)
  unfolding encode_payload
  encode_payload-IsEncoded p filter_values = outcome-IsEncoded p filter_values _ refl

  pub deprecated_payload : ℕ → Option String → String → DecodedPayload
  deprecated_payload id name bytes = record {
    block_id = id;
    block_type = some "Deprecated";
    name = name;
    content = some (field "bytes" (text bytes) end);
    mask_mode = MaskMode.no_mask;
    mask_fields = [];
  }

  -- When `BlockType` has the value Deprecated, the payload of a deprecated block, with its bytes as
  -- the only content and without a mask, is encoded, and decoded to what it was in any read mode.
  pub decode_payload-encode_payload :
      (id value : ℕ) (name : Option String) (bytes : String) (mode : ReadMode)
      → (filter_values : Option Bool) → M.value "Deprecated" ≡ some value
      → (e : EncodedPayload) × (encode_payload L F M tables table own
            (deprecated_payload id name bytes)
            filter_values
          ≡ ok e)
        × (decode_payload L F M tables table own e mode filter_values
            ≡ deprecated_payload id name bytes)
  unfolding encode_payload encode_type known_value deprecated_content bare decode_payload
      decode_known is_number stub or_error_object deprecated_payload
  decode_payload-encode_payload id value name bytes mode filter_values known = (
    record {
      block_id = id;
      block_type = some (type_int value);
      name = name;
      content = bytes;
      mask_mode = MaskMode.no_mask;
      mask_fields = [];
    },
    rw known refl,
    rw (known, (==_iff value value).1 refl) refl,
  )
