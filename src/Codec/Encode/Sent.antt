-- ===== src/Codec/Encode/Sent.antt =====
-- codec/processor.py, `pre_encode`: what it means that only sent fields stand in the encoded content,
-- at any depth.
mod Acts
mod Elements
mod Turns
pub mod Whole
use brewblox_devcon_spark.Base.{
  ◌&&◌, ◌||◌, not, if◌then◌else◌, ℕ, zero, suc, ◌==◌, Bool, true, false, List, [], ◌∷◌, Option,
  none, some, String, ◌≡◌, refl, sym, ap, subst, str_eq, arith, ◌⊎◌, inl, inr, eq_iff, eq_refl,
  Bool-cases, if-cases, ◌∙◌,
}
use brewblox_devcon_spark.Base.Exn.{Result, ok, err, ◌>>=◌, >>=-eq-ok}
use brewblox_devcon_spark.Base.Dict.{elem}
use brewblox_devcon_spark.Base.Json.{
  Json, null, boolean, number, negative, float, text, array, object, Items, nil, item, Fields, end,
  field, get, get_or_null, set_field,
}
use brewblox_devcon_spark.Models.Messages.{DecodedPayload, MaskMode}
use brewblox_devcon_spark.Codec.Keys.{split_key, split_key-base, has_key, del_field}
use brewblox_devcon_spark.Codec.Libraries.{Protobuf, FieldOpts, Libraries}
use brewblox_devcon_spark.Codec.Units.{Converter}
use brewblox_devcon_spark.Codec.Values.{encode_value}
use brewblox_devcon_spark.Codec.Walk.{
  Address, OptionElement, Found, find_element, find_element-eq, find_element-split, Action, remove,
  assign, act, written_by, walk, walk_value, walk_map, walk_items, Kind, leaf, repeated, message,
  kind, value_type,
}
use brewblox_devcon_spark.Codec.Encode.{
  encode_items, encode_element, encode_current, encode_content, pre_encode, is_stripped, add_mask,
  filtering,
}

-- A step into a dict or into a list.
pub data Step : Type 0 where
  under : String → Step
  nth : ℕ → Step

unfoldable pub get_item : ℕ → Items → Option Json
get_item i nil = none
get_item zero (item v vs) = some v
get_item (suc i) (item v vs) = get_item i vs

abbrev map_kind : (P : Protobuf) → Option P.Descriptor → Kind P
map_kind P none = leaf
map_kind P (some desc) = message desc

-- The kind of the values of a map.
abbrev pub entry_kind : (P : Protobuf) → Option P.FieldDescriptor → Kind P
entry_kind P none = leaf
entry_kind P (some f) = map_kind P (P.message_type f)

module _ (P : Protobuf) (filter : Bool) where
  -- The name of a field that is sent, of which the value is as it should be.
  abbrev pub IsSent : P.Descriptor → String → (Kind P → Type 0) → Type 0
  IsSent desc k Below =
      (f : P.FieldDescriptor) × (P.fields_by_name desc k ≡ some f)
      × ((P.options f).ignored ≡ false)
      × ((filter && (P.options f).readonly) ≡ false)
      × Below (kind P f)

  abbrev pub AtKey : String → (Kind P → Json → Type 0) → Kind P → Json → Type 0
  AtKey k Below (message desc) (object fs) =
      (v : Json) → get k fs ≡ some v → IsSent desc k (λ t. Below t v)
  AtKey k Below (repeated desc) (object fs) =
      (v : Json) → get k fs ≡ some v → Below (entry_kind P (P.fields_by_name desc "value")) v
  AtKey k Below _ v = Unit

  abbrev pub AtIndex : ℕ → (Kind P → Json → Type 0) → Kind P → Json → Type 0
  AtIndex i Below (repeated desc) (array vs) =
      (v : Json) → get_item i vs ≡ some v → Below (message desc) v
  AtIndex i Below _ v = Unit

  -- What is found along the path is sent, down from a value of this kind.
  pub Sent : List Step → Kind P → Json → Type 0
  Sent [] t v = Unit
  Sent (under k ∷ path) t v = AtKey k (Sent path) t v
  Sent (nth i ∷ path) t v = AtIndex i (Sent path) t v

  abbrev pub AllSent : Kind P → Json → Type 0
  AllSent t v = (path : List Step) → Sent path t v

  leaf-AllSent : (v : Json) → AllSent leaf v
  unfolding Sent
  leaf-AllSent v [] = tt
  leaf-AllSent v (under k ∷ path) = tt
  leaf-AllSent v (nth i ∷ path) = tt

  null-AllSent : (t : Kind P) → AllSent t null
  unfolding Sent
  null-AllSent t [] = tt
  null-AllSent leaf (under k ∷ path) = tt
  null-AllSent (repeated d) (under k ∷ path) = tt
  null-AllSent (message d) (under k ∷ path) = tt
  null-AllSent leaf (nth k ∷ path) = tt
  null-AllSent (repeated d) (nth k ∷ path) = tt
  null-AllSent (message d) (nth k ∷ path) = tt

  text-AllSent : (t : Kind P) (s : String) → AllSent t (text s)
  unfolding Sent
  text-AllSent t s [] = tt
  text-AllSent leaf s (under k ∷ path) = tt
  text-AllSent (repeated d) s (under k ∷ path) = tt
  text-AllSent (message d) s (under k ∷ path) = tt
  text-AllSent leaf s (nth k ∷ path) = tt
  text-AllSent (repeated d) s (nth k ∷ path) = tt
  text-AllSent (message d) s (nth k ∷ path) = tt

  -- A key of an object, its value, and that it is a base key.
  pub IsGood : P.Descriptor → String → Json → Type 0
  IsGood desc k v = (split_key k ≡ ok (k, "")) × IsSent desc k (λ t. AllSent t v)

  pub AreGood : P.Descriptor → Fields → Type 0
  unfolding IsGood
  AreGood desc fs = (k : String) (v : Json) → get k fs ≡ some v → IsGood desc k v

  message-AllSent :
      (desc : P.Descriptor) (fs : Fields) → AreGood desc fs → AllSent (message desc) (object fs)
  unfolding Sent AreGood IsGood
  message-AllSent desc fs good [] = tt
  message-AllSent desc fs good (under k ∷ path) = λ v h.
      let (base, (f, is, shown, kept, below)) = good k v h in (f, is, shown, kept, below path)
  message-AllSent desc fs good (nth i ∷ path) = tt

  items-AllSent :
      (desc : P.Descriptor) (vs : Items)
      → ((i : ℕ) (v : Json) → get_item i vs ≡ some v → AllSent (message desc) v)
      → AllSent (repeated desc) (array vs)
  unfolding Sent
  items-AllSent desc vs h [] = tt
  items-AllSent desc vs h (under k ∷ path) = tt
  items-AllSent desc vs h (nth i ∷ path) = λ v is. h i v is path

  array-AllSent :
      (t : Kind P) (vs ws : Items)
      → ((Q : Json → Type 0)
          → ((i : ℕ) (v : Json) → get_item i vs ≡ some v → Q v)
          → (i : ℕ) (v : Json) → get_item i ws ≡ some v
          → Q v)
      → AllSent t (array vs)
      → AllSent t (array ws)
  unfolding Sent
  array-AllSent t vs ws kept h [] = tt
  array-AllSent leaf vs ws kept h (under k ∷ path) = tt
  array-AllSent (repeated d) vs ws kept h (under k ∷ path) = tt
  array-AllSent (message d) vs ws kept h (under k ∷ path) = tt
  array-AllSent leaf vs ws kept h (nth i ∷ path) = tt
  array-AllSent (message d) vs ws kept h (nth i ∷ path) = tt
  array-AllSent (repeated d) vs ws kept h (nth i ∷ path) =
      λ v at. kept (λ w. Sent path (message d) w) (λ j w is. h (nth j ∷ path) w is) i v at

  map-AllSent :
      (desc : P.Descriptor) (fs : Fields)
      → ((k : String) (v : Json)
          → get k fs ≡ some v
          → AllSent (entry_kind P (P.fields_by_name desc "value")) v)
      → AllSent (repeated desc) (object fs)
  unfolding Sent
  map-AllSent desc fs h [] = tt
  map-AllSent desc fs h (under k ∷ path) = λ v is. h k v is path
  map-AllSent desc fs h (nth i ∷ path) = tt

item_or :
    (w : Json) (rest : Items) (Q : Json → Type 0)
    → Q w
    → ((i : ℕ) (v : Json) → get_item i rest ≡ some v → Q v)
    → (i : ℕ) (v : Json) → get_item i (item w rest) ≡ some v
    → Q v
unfolding get_item
item_or w rest Q here later zero v at = let same : w ≡ v = cc in subst Q same here
item_or w rest Q here later (suc i) v at = later i v at

-- Encoding changes no value of a field that holds messages.
abbrev pub IsPlain : (P : Protobuf) → P.FieldDescriptor → Type 0
IsPlain P f =
    ((P.options f).unit ≡ 0)
    × ((P.options f).objtype ≡ 0)
    × ((P.options f).scale ≡ 0)
    × ((P.options f).hexed ≡ false)
    × ((P.options f).hexstr ≡ false)
    × ((P.options f).ipv4address ≡ false)
    × ((P.options f).datetime ≡ false)
    × (P.is_int f ≡ false)

abbrev pub PlainMessages : Protobuf → Type 0
PlainMessages P =
    (f : P.FieldDescriptor) (desc : P.Descriptor) → P.message_type f ≡ some desc → IsPlain P f
