-- ===== src/Codec/Decode/RoundTrip.antt =====
-- codec/processor.py: what `post_decode` makes is taken back by `pre_encode`.
use brewblox_devcon_spark.Base.{
  ℕ, ◌<◌, ◌^◌, Bool, true, false, String, ◌≡◌, refl, ap, ◌∙◌, if◌then◌else◌, inl, inr, Bool-cases,
}
use brewblox_devcon_spark.Base.Exn.{ok, ◌>>=◌, >>=-eq-ok}
use brewblox_devcon_spark.Base.Str.{pos}
use brewblox_devcon_spark.Base.Json.{number, text}
use brewblox_devcon_spark.TimeUtils.Moments.{DateFormatOpt}
use brewblox_devcon_spark.Codec.Bytes.{int_to_hex, hex_to_int, hex_to_int-int_to_hex}
use brewblox_devcon_spark.Codec.Libraries.{Libraries, FieldOpts}
use brewblox_devcon_spark.Codec.Keys.{
  split_key, split_key-append, split_key-free, is_free_of, is_symbol, ends_postfix,
}
use brewblox_devcon_spark.Codec.Units.{Converter}
use brewblox_devcon_spark.Codec.Decode.{decoded_key}
use brewblox_devcon_spark.Codec.Values.{
  MetadataOpt, postfix, encode_value, decode_value, decode_scaled, decode_plain, decode_hex, as_int,
  on_text, is_set,
}
use Prim.Native.String.{◌∷◌ as ◌then_char◌, ◌++◌ as ◌then_text◌}
use Prim.Native.String.append
use Prim.Native.Char.{Char}

-- What `decoded_key` adds.
abbrev metadata : FieldOpts → String → String → String
metadata options link_type user_unit =
    if is_set options.unit then user_unit else if is_set options.objtype then link_type else ""

-- The metadata stands between two symbols.
split_key-in :
    (c : Char) (s meta : String) (l r : Char)
    → is_free_of is_symbol (c then_char s) ≡ true
    → is_free_of ends_postfix meta ≡ true
    → is_symbol l ≡ true
    → is_symbol r ≡ true
    → split_key
        ((c then_char s) then_text ((l then_char "") then_text (meta then_text (r then_char ""))))
      ≡ ok (c then_char s, meta)
split_key-in c s meta l r free plain opens closes =
    ap (λ t. split_key ((c then_char s) then_text t))
      (append.cons l "" (meta then_text (r then_char ""))
        ∙ ap (λ t. l then_char t) (append.nil (meta then_text (r then_char ""))))
    ∙ split_key-append c s meta l r free plain opens closes

-- A key that `post_decode` has given a unit or a type is taken apart by `pre_encode` into the key
-- and the unit or the type, when the key is not empty and has none of the characters `[]<>`, and the
-- unit and the type have neither these nor a comma.
pub split_key-decoded_key :
    (options : FieldOpts) (c : Char) (s link_type user_unit : String)
    → is_free_of is_symbol (c then_char s) ≡ true
    → is_free_of ends_postfix link_type ≡ true
    → is_free_of ends_postfix user_unit ≡ true
    → split_key (decoded_key postfix options (c then_char s) link_type user_unit)
      ≡ ok (c then_char s, metadata options link_type user_unit)
unfolding decoded_key
split_key-decoded_key options c s link_type user_unit free link unit =
    elim (Bool-cases (is_set options.unit)) [
      | inl e ↦ rw e (split_key-in c s user_unit "[" "]" free unit refl refl)
      | inr e ↦ rw e (elim (Bool-cases (is_set options.objtype)) [
        | inl f ↦ rw f (split_key-in c s link_type "<" ">" free link refl refl)
        | inr f ↦ rw f (split_key-free c s free)
      ])
    ]

-- A field that is only hexadecimal.
abbrev IsHexed : FieldOpts → Type 0
IsHexed options =
    (options.unit ≡ 0)
    × (options.objtype ≡ 0)
    × (options.scale ≡ 0)
    × (options.hexed ≡ true)
    × (options.hexstr ≡ false)
    × (options.ipv4address ≡ false)
    × (options.datetime ≡ false)
    × (options.null_if_zero ≡ false)

module _ (L : Libraries) (table : Converter) where
  decode_hexed :
      (options : FieldOpts) (meta : MetadataOpt) (fmt : DateFormatOpt) (link system user : String)
      → (n : ℕ) → IsHexed options
      → decode_value L table options false meta fmt link system user (number n)
        ≡ (int_to_hex (pos n) >>= λ s. ok (text s))
  unfolding decode_value decode_scaled decode_plain decode_hex as_int
  decode_hexed options meta fmt link system user n h = rw (h.0, h.1, h.2, h.3, h.7) refl

  encode_hexed :
      (options : FieldOpts) (is_int : Bool) (suffix s : String) (n : ℕ)
      → IsHexed options
      → hex_to_int s ≡ ok (pos n)
      → L.numbers.rounded (number n) ≡ ok (number n)
      → encode_value L table options is_int suffix (text s) ≡ ok (number n)
  unfolding encode_value on_text
  encode_hexed options true suffix s n h is whole = rw (h.0, h.1, h.2, h.3, h.4, h.5, h.6, is) whole
  encode_hexed options false suffix s n h is whole = rw (h.0, h.1, h.2, h.3, h.4, h.5, h.6, is) refl

  -- An unsigned 64-bit number that `post_decode` writes in hexadecimal is the number again behind
  -- `pre_encode`, when rounding leaves a whole number alone.
  pub encode_value-decode_value :
      (options : FieldOpts) (is_int : Bool) (suffix : String) (meta : MetadataOpt)
      → (fmt : DateFormatOpt) (link system user : String) (n : ℕ) → IsHexed options
      → n < 2 ^ 64
      → L.numbers.rounded (number n) ≡ ok (number n)
      → (decode_value L table options false meta fmt link system user (number n)
          >>= encode_value L table options is_int suffix)
        ≡ ok (number n)
  encode_value-decode_value options is_int suffix meta fmt link system user n h lt whole =
      let (s, written, is) = >>=-eq-ok (int_to_hex (pos n)) _ (hex_to_int-int_to_hex n lt) in
      rw (decode_hexed options meta fmt link system user n h, written)
        (encode_hexed options is_int suffix s n h is whole)
