-- ===== src/Codec/Walk.antt =====
-- codec/processor.py: `_walk_elements`, which visits the values of an object depth-first. The code
-- that takes an element may delete its value or put another one under a key.
use brewblox_devcon_spark.Base.{
  ℕ, Bool, true, false, List, [], ◌∷◌, ◌++◌, Option, none, some, String, ◌≡◌, if◌then◌else◌, str_eq,
  sym, ap, ◌∙◌,
}
use brewblox_devcon_spark.Base.Exn.{
  Result, ok, err, ◌>>=◌, >>=-eq-ok, key_error, type_error, attribute_error,
}
use brewblox_devcon_spark.Base.Dict.{elem}
use brewblox_devcon_spark.Base.Json.{
  Json, null, text, array, object, Items, nil, item, Fields, end, field, get_or_null, set_field,
}
use brewblox_devcon_spark.Codec.Libraries.{Protobuf}
use brewblox_devcon_spark.Codec.Keys.{split_key, del_field}

abbrev pub Address : Type 0
Address = List (Option ℕ)

-- An element; the object that it stands in is the walk's.
pub record OptionElement (P : Protobuf) : Type 0 where
  pub field : P.FieldDescriptor
  pub key : String
  pub base_key : String
  pub postfix : String
  pub address : Address

-- What is done with the value of an element.
pub data Action : Type 0 where
  remove : Action
  assign : String → Json → Action

-- What is found at a key: its parts and its field.
pub record Found (P : Protobuf) : Type 0 where
  pub field : P.FieldDescriptor
  pub base_key : String
  pub postfix : String

-- How the walk goes on below a field.
pub data Kind (P : Protobuf) : Type 0 where
  leaf : Kind P
  repeated message : P.Descriptor → Kind P

or_key_error : (P : Protobuf) → Option P.FieldDescriptor → String → String → Result (Found P)
or_key_error P none base_key postfix = err key_error
or_key_error P (some f) base_key postfix =
    ok (record { field = f; base_key = base_key; postfix = postfix })

-- A message type that is absent has no `fields_by_name`.
find_field : (P : Protobuf) → Option P.Descriptor → String × String → Result (Found P)
unfolding or_key_error
find_field P none names = err attribute_error
find_field P (some desc) (base_key, postfix) =
    or_key_error P (P.fields_by_name desc base_key) base_key postfix

unfoldable pub find_element : (P : Protobuf) → Option P.Descriptor → String → Result (Found P)
unfolding find_field split_key
find_element P desc key = split_key key >>= find_field P desc

or_key_error-eq :
    (P : Protobuf) (o : Option P.FieldDescriptor) (base_key postfix : String) (found : Found P)
    → or_key_error P o base_key postfix ≡ ok found
    → (o ≡ some found.field) × (found.base_key ≡ base_key)
unfolding or_key_error
or_key_error-eq P none base_key postfix found h = cc
or_key_error-eq P (some f) base_key postfix found h =
    let same : record { field = f; base_key = base_key; postfix = postfix } ≡ found = cc in
    (ap (λ r. some r.field) same, sym (ap (λ r. r.base_key) same))

-- What is found is the field of the base key.
pub find_element-eq :
    (P : Protobuf) (desc : P.Descriptor) (key : String) (found : Found P)
    → find_element P (some desc) key ≡ ok found
    → P.fields_by_name desc found.base_key ≡ some found.field
unfolding find_element find_field
find_element-eq P desc key found h =
    let (names, split, h) = >>=-eq-ok (split_key key) (find_field P (some desc)) h in
    let (is, same) = or_key_error-eq P (P.fields_by_name desc names.0) names.0 names.1 found h in
    ap (P.fields_by_name desc) same ∙ is

-- The base key is the front of the key.
pub find_element-split :
    (P : Protobuf) (desc : P.Descriptor) (key : String) (found : Found P)
    → find_element P (some desc) key ≡ ok found
    → (postfix : String) × (split_key key ≡ ok (found.base_key, postfix))
unfolding find_element find_field
find_element-split P desc key found h =
    let (names, split, h) = >>=-eq-ok (split_key key) (find_field P (some desc)) h in
    let (is, same) = or_key_error-eq P (P.fields_by_name desc names.0) names.0 names.1 found h in
    (names.1, split ∙ ap (λ b. ok (b, names.1)) (sym same))

abbrev kind_of : (P : Protobuf) → Option P.Descriptor → Bool → Kind P
kind_of P none many = leaf
kind_of P (some desc) true = repeated desc
kind_of P (some desc) false = message desc

abbrev pub kind : (P : Protobuf) → P.FieldDescriptor → Kind P
kind P f = kind_of P (P.message_type f) (P.is_repeated f)

-- Only a submessage with content is no leaf.
unfoldable pub element_address : (P : Protobuf) → Kind P → Json → Address → Address
element_address P (message desc) null address = address
element_address P (message desc) _ address = address ++ none ∷ []
element_address P _ _ address = address

-- The message type of the values of a map.
abbrev pub value_type : (P : Protobuf) → Option P.FieldDescriptor → Result (Option P.Descriptor)
value_type P none = err key_error
value_type P (some f) = ok (P.message_type f)

-- Behind what was done with an element.
unfoldable pub act : String → Action → Fields → Fields
unfolding del_field set_field
act key remove obj = del_field key obj
act key (assign new_key v) obj =
    set_field new_key v (if str_eq key new_key then obj else del_field key obj)

-- The keys under which values were put.
abbrev pub written_by : Action → List String → List String
written_by remove written = written
written_by (assign k v) written = k ∷ written

module _ (P : Protobuf) {S : Type 0}
    (handle : OptionElement P → Json → S → Result (Action × S)) where
  -- `walk desc pairs address written obj s`: `pairs` is the copy of the items, and `written` has the
  -- keys of `obj` whose values are no longer those of the copy.
  unfoldable mutual
    unfolding find_element elem act element_address

    pub walk :
        Option P.Descriptor → Fields → Address → List String → Fields → S → Result (Fields × S)
    walk desc end parent written obj s = ok (obj, s)
    walk desc (field key value pairs) parent written obj s = find_element P desc key >>= (λ found.
        let address = parent ++ some (P.number found.field) ∷ [] in
        walk_value (kind P found.field) value address s >>= (λ r.
          let element : OptionElement P = record {
            field = found.field;
            key = key;
            base_key = found.base_key;
            postfix = found.postfix;
            address = element_address P (kind P found.field) value address;
          } in
          let current = if elem key written then get_or_null key obj else r.0 in
          handle element current r.1 >>= (λ done.
            walk desc pairs parent (written_by done.0 written) (act key done.0 obj) done.1)))

    pub walk_value : Kind P → Json → Address → S → Result (Json × S)
    walk_value leaf v address s = ok (v, s)
    walk_value (repeated desc) null address s = ok (null, s)
    walk_value (repeated desc) (object fs) address s =
        value_type P (P.fields_by_name desc "value")
        >>= (λ inner. walk_map inner fs (address ++ none ∷ []) s >>= (λ r. ok (object r.0, r.1)))
    walk_value (repeated desc) (array vs) address s =
        walk_items desc vs (address ++ none ∷ []) s >>= (λ r. ok (array r.0, r.1))
    walk_value (repeated desc) (text t) address s =
        if str_eq t "" then ok (text t, s) else err attribute_error
    walk_value (repeated desc) v address s = err type_error
    walk_value (message desc) null address s = ok (null, s)
    walk_value (message desc) (object fs) address s =
        walk (some desc) fs address [] fs s >>= (λ r. ok (object r.0, r.1))
    walk_value (message desc) v address s = err attribute_error

    pub walk_map : Option P.Descriptor → Fields → Address → S → Result (Fields × S)
    walk_map desc end address s = ok (end, s)
    walk_map desc (field key (object fs) pairs) address s =
        walk desc fs address [] fs s
        >>= (λ r. walk_map desc pairs address r.1 >>= (λ q. ok (field key (object r.0) q.0, q.1)))
    walk_map desc (field key v pairs) address s = err attribute_error

    pub walk_items : P.Descriptor → Items → Address → S → Result (Items × S)
    walk_items desc nil address s = ok (nil, s)
    walk_items desc (item (object fs) vs) address s =
        walk (some desc) fs address [] fs s
        >>= (λ r. walk_items desc vs address r.1 >>= (λ q. ok (item (object r.0) q.0, q.1)))
    walk_items desc (item v vs) address s = err attribute_error
