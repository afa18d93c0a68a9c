-- ===== src/Codec/Decode.antt =====
-- codec/processor.py: `post_decode`.
pub mod RoundTrip
use brewblox_devcon_spark.Base.{
  ℕ, Bool, true, false, not, ◌&&◌, ◌||◌, List, [], ◌∷◌, ◌++◌, Option, none, some, String, ◌==◌,
  if◌then◌else◌,
}
use brewblox_devcon_spark.Base.Exn.{Result, ok, err, ◌>>=◌, attribute_error}
use brewblox_devcon_spark.Base.Json.{Json, null, array, Items, nil, item, Fields}
use brewblox_devcon_spark.Models.Messages.{
  DecodedPayload, MaskMode, no_mask, inclusive, exclusive, ReadMode, default, stored, logged,
}
use brewblox_devcon_spark.TimeUtils.Moments.{DateFormatOpt, seconds, iso8601}
use brewblox_devcon_spark.Codec.Libraries.{FieldOpts, Libraries}
use brewblox_devcon_spark.Codec.Units.{Converter, to_user_unit}
use brewblox_devcon_spark.Codec.Walk.{Address, OptionElement, Action, remove, assign, walk}
use brewblox_devcon_spark.Codec.Encode.{filtering}
use brewblox_devcon_spark.Codec.Values.{MetadataOpt, postfix, typed, decode_value, is_zero, is_set}
use Prim.Native.String.{◌++◌ as ◌then_text◌}

matches_tag : ℕ → Option ℕ → Bool
matches_tag n none = false
matches_tag n (some m) = m == n

-- The addresses are compared as far as both go.
unfoldable pub matches_address : List ℕ → Address → Bool
unfolding matches_tag
matches_address (n ∷ tags) (t ∷ address) = matches_tag n t && matches_address tags address
matches_address _ _ = true

unfoldable pub masked : List (List ℕ) → Address → Bool
unfolding matches_address
masked [] address = false
masked (f ∷ fields) address = matches_address f address || masked fields address

unfoldable pub is_excluded : MaskMode → List (List ℕ) → Address → Bool
unfolding masked
is_excluded no_mask fields address = false
is_excluded inclusive fields address = not (masked fields address)
is_excluded exclusive fields address = masked fields address

metadata_opt : ReadMode → MetadataOpt
metadata_opt logged = postfix
metadata_opt _ = typed

date_fmt_opt : ReadMode → DateFormatOpt
date_fmt_opt logged = seconds
date_fmt_opt _ = iso8601

-- Whether the read mode leaves the field out.
unfoldable pub is_left_out : ReadMode → FieldOpts → Bool
is_left_out stored options = not options.stored
is_left_out logged options = not options.logged
is_left_out default options = false

unfoldable pub is_dropped : Bool → ReadMode → FieldOpts → Bool
unfolding is_left_out
is_dropped filter_values mode options =
    if options.ignored then true else filter_values && is_left_out mode options

-- The key with its metadata; a unit goes before a type.
unfoldable pub decoded_key : MetadataOpt → FieldOpts → String → String → String → String
decoded_key typed options key link_type user_unit = key
decoded_key postfix options key link_type user_unit =
    if is_set options.unit
    then key then_text ("[" then_text (user_unit then_text "]"))
    else if is_set options.objtype
    then key then_text ("<" then_text (link_type then_text ">"))
    else key

-- `[v for v in new_value if v != 0]`
without_zeros : Items → Items
unfolding is_zero
without_zeros nil = nil
without_zeros (item v vs) = let rest = without_zeros vs in if is_zero v then rest else item v rest

-- The value behind the filter of `omit_if_zero`; `none` is a value that is deleted.
unfoldable pub omit_zero : Bool → Json → Option Json
unfolding without_zeros is_zero
omit_zero false v = some v
omit_zero true (array vs) = some (array (without_zeros vs))
omit_zero true v = if is_zero v then none else some v

map_items : (Json → Result Json) → Items → Result Items
map_items f nil = ok nil
map_items f (item v vs) = f v >>= (λ w. map_items f vs >>= (λ ws. ok (item w ws)))

convert : (Json → Result Json) → Json → Result Json
unfolding map_items
convert f (array vs) = map_items f vs >>= (λ ws. ok (array ws))
convert f v = f v

assigned : String → (Json → Result Json) → Option Json → Result Action
unfolding convert
assigned key f none = ok remove
assigned key f (some v) = convert f v >>= (λ w. ok (assign key w))

module _ (L : Libraries) (table : Converter) where
  decode_current : ReadMode → Bool → OptionElement (L.pb) → Json → Result Action
  unfolding decoded_key omit_zero assigned decode_value metadata_opt date_fmt_opt to_user_unit
  decode_current mode excluded e current =
      let options = L.pb.options e.field in
      let meta = metadata_opt mode in
      L.pb.type_name options.objtype >>= (λ link_type.
        L.pb.unit_name options.unit >>= (λ system_unit.
          to_user_unit table system_unit >>= (λ user_unit.
            assigned (decoded_key meta options e.key link_type user_unit)
              (decode_value L table options excluded meta (date_fmt_opt mode) link_type system_unit
                user_unit)
              (omit_zero options.omit_if_zero current))))

  -- The body of the loop of `post_decode`, which has no state.
  unfoldable pub decode_element :
      Bool
      → ReadMode
      → MaskMode
      → List (List ℕ)
      → OptionElement (L.pb)
      → Json
      → Unit {0}
      → Result (Action × Unit {0})
  unfolding decode_current is_dropped is_excluded
  decode_element filter_values mode mask_mode mask_fields e current s =
      if is_dropped filter_values mode (L.pb.options e.field)
      then ok (remove, tt)
      else decode_current mode (is_excluded mask_mode mask_fields e.address) e current
        >>= (λ a. ok (a, tt))

  decode_content :
      Bool → ReadMode → DecodedPayload → Option (L.pb.Descriptor) → Option Fields → Result Fields
  unfolding decode_element walk
  decode_content filter_values mode payload desc none = err attribute_error
  decode_content filter_values mode payload desc (some fs) =
      walk (L.pb) (decode_element filter_values mode payload.mask_mode payload.mask_fields) desc fs
        [] [] fs tt
      >>= (λ r. ok r.0)

  unfoldable pub post_decode :
      Bool → L.pb.Descriptor → DecodedPayload → ReadMode → Option Bool → Result DecodedPayload
  unfolding decode_content
  post_decode own desc payload mode filter_values =
      decode_content (filtering filter_values own) mode payload (some desc) payload.content
      >>= (λ fs. ok (record payload { content = some fs }))
