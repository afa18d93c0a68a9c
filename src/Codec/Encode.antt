-- ===== src/Codec/Encode.antt =====
-- codec/processor.py: `pre_encode`.
pub mod Sent
pub mod Notes
pub mod Masks
use brewblox_devcon_spark.Base.{
  ℕ, Bool, true, false, not, ◌&&◌, List, [], ◌∷◌, ◌++◌, Option, none, some, String, if◌then◌else◌,
}
use brewblox_devcon_spark.Base.Exn.{Result, ok, err, ◌>>=◌, attribute_error}
use brewblox_devcon_spark.Base.Json.{Json, null, array, Items, nil, item, Fields}
use brewblox_devcon_spark.Models.Messages.{DecodedPayload, MaskMode, inclusive}
use brewblox_devcon_spark.Codec.Libraries.{FieldOpts, Libraries}
use brewblox_devcon_spark.Codec.Units.{Converter}
use brewblox_devcon_spark.Codec.Walk.{Address, OptionElement, Action, remove, assign, walk}
use brewblox_devcon_spark.Codec.Values.{encode_value}

cons_tag : ℕ → Option (List ℕ) → Option (List ℕ)
cons_tag n none = none
cons_tag n (some tags) = some (n ∷ tags)

-- The address, if None does not stand in it.
unfoldable pub complete : Address → Option (List ℕ)
unfolding cons_tag
complete [] = some []
complete (none ∷ address) = none
complete (some n ∷ address) = cons_tag n (complete address)

append_mask : Option (List ℕ) → List (List ℕ) → List (List ℕ)
append_mask none masks = masks
append_mask (some tags) masks = masks ++ tags ∷ []

is_inclusive : MaskMode → Bool
is_inclusive inclusive = true
is_inclusive _ = false

unfoldable pub add_mask : MaskMode → Address → List (List ℕ) → List (List ℕ)
unfolding complete append_mask is_inclusive
add_mask mode address masks =
    if is_inclusive mode then append_mask (complete address) masks else masks

-- Whether the value is not for the controller.
unfoldable pub is_stripped : Bool → FieldOpts → Bool
is_stripped filter_values options =
    if options.ignored then true else filter_values && options.readonly

-- `filter_values`, or the processor's own where it is None
abbrev pub filtering : Option Bool → Bool → Bool
filtering none own = own
filtering (some b) own = b

module _ (L : Libraries) (table : Converter) where
  encode_items : FieldOpts → Bool → String → Items → Result Items
  unfolding encode_value
  encode_items options is_int suffix nil = ok nil
  encode_items options is_int suffix (item null vs) = encode_items options is_int suffix vs
  encode_items options is_int suffix (item v vs) =
      encode_value L table options is_int suffix v
      >>= (λ w. encode_items options is_int suffix vs >>= (λ ws. ok (item w ws)))

  -- The new value; a null is deleted.
  encode_current : OptionElement (L.pb) → Json → Result Action
  unfolding encode_items encode_value
  encode_current e null = ok remove
  encode_current e (array vs) =
      encode_items (L.pb.options e.field) (L.pb.is_int e.field) e.postfix vs
      >>= (λ ws. ok (assign e.base_key (array ws)))
  encode_current e v =
      encode_value L table (L.pb.options e.field) (L.pb.is_int e.field) e.postfix v
      >>= (λ w. ok (assign e.base_key w))

  -- The body of the loop of `pre_encode`. The state is `payload.maskFields`.
  unfoldable pub encode_element :
      Bool
      → MaskMode
      → OptionElement (L.pb)
      → Json
      → List (List ℕ)
      → Result (Action × List (List ℕ))
  unfolding encode_current add_mask is_stripped
  encode_element filter_values mode e current masks =
      if is_stripped filter_values (L.pb.options e.field)
      then ok (remove, masks)
      else encode_current e current >>= (λ a. ok (a, add_mask mode e.address masks))

  encode_content :
      Bool
      → MaskMode
      → Option (L.pb.Descriptor)
      → Option Fields
      → List (List ℕ)
      → Result (Fields × List (List ℕ))
  unfolding encode_element walk
  encode_content filter_values mode desc none masks = err attribute_error
  encode_content filter_values mode desc (some fs) masks =
      walk (L.pb) (encode_element filter_values mode) desc fs [] [] fs masks

  -- `own` is the processor's `_filter_values`.
  unfoldable pub pre_encode :
      Bool → L.pb.Descriptor → DecodedPayload → Option Bool → Result DecodedPayload
  unfolding encode_content
  pre_encode own desc payload filter_values =
      encode_content (filtering filter_values own) payload.mask_mode (some desc) payload.content
        payload.mask_fields
      >>= (λ r. ok (record payload { content = some r.0; mask_fields = r.1 }))
