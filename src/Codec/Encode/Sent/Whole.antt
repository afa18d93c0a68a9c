-- ===== src/Codec/Encode/Sent/Whole.antt =====
-- codec/processor.py, `pre_encode`: the encoded content, at any depth.
use brewblox_devcon_spark.Base.{
  ℕ, Bool, List, [], Option, none, some, String, ◌≡◌, refl, sym, ap, subst, str_eq, arith, inl, inr,
  Bool-cases,
}
use brewblox_devcon_spark.Base.Exn.{ok, >>=-eq-ok}
use brewblox_devcon_spark.Base.Json.{
  Json, null, text, array, object, Items, nil, item, Fields, end, field, get,
}
use brewblox_devcon_spark.Models.Messages.{DecodedPayload, MaskMode}
use brewblox_devcon_spark.Codec.Libraries.{Protobuf, Libraries}
use brewblox_devcon_spark.Codec.Units.{Converter}
use brewblox_devcon_spark.Codec.Walk.{
  Address, find_element, act, written_by, walk, walk_value, walk_map, walk_items, Kind, leaf,
  repeated, message, kind, value_type,
}
use brewblox_devcon_spark.Codec.Encode.{encode_element, encode_content, pre_encode, filtering}
use brewblox_devcon_spark.Codec.Encode.Sent.{
  get_item, entry_kind, map_kind, AllSent, leaf-AllSent, null-AllSent, text-AllSent, AreGood,
  message-AllSent, items-AllSent, map-AllSent, item_or, PlainMessages,
}
use brewblox_devcon_spark.Codec.Encode.Sent.Turns.{AreGoodOr, to_come, all_done}
use brewblox_devcon_spark.Codec.Encode.Sent.Acts.{act-AreGoodOr}

entry_kind-value_type :
    (P : Protobuf) (o : Option P.FieldDescriptor) (inner : Option P.Descriptor)
    → value_type P o ≡ ok inner
    → map_kind P inner ≡ entry_kind P o
entry_kind-value_type P none inner h = cc
entry_kind-value_type P (some f) inner h =
    let same : P.message_type f ≡ inner = cc in ap (map_kind P) (sym same)

get-end : (k : String) (v : Json) (A : Type 0) → get k end ≡ some v → A
unfolding get
get-end k v A h = let never : ⊥ = cc in absurd never

get_item-nil : (i : ℕ) (v : Json) (A : Type 0) → get_item i nil ≡ some v → A
unfolding get_item
get_item-nil i v A h = let never : ⊥ = cc in absurd never

field_or :
    (j : String) (w : Json) (rest : Fields) (Q : Json → Type 0)
    → Q w
    → ((k : String) (v : Json) → get k rest ≡ some v → Q v)
    → (k : String) (v : Json) → get k (field j w rest) ≡ some v
    → Q v
unfolding get
field_or j w rest Q here later k v h = elim (Bool-cases (str_eq j k)) [
  | inl e ↦ let same : some w ≡ some v = rw (← h, e) refl in let is : w ≡ v = cc in subst Q is here
  | inr e ↦ later k v (rw (← h, e) refl)
]

module _ (L : Libraries) (table : Converter) (plain : PlainMessages (L.pb)) (filter : Bool)
    (mode : MaskMode) where
  mutual
    unfolding walk walk_value walk_map walk_items

    walk-AreGood :
        (desc : L.pb.Descriptor) (pairs : Fields) (parent : Address) (written : List String)
        → (obj : Fields) (s : List (List ℕ)) (r : Fields × List (List ℕ))
        → AreGoodOr (L.pb) filter desc pairs written obj
        → walk (L.pb) (encode_element L table filter mode) (some desc) pairs parent written obj s
          ≡ ok r
        → AreGood (L.pb) filter desc r.0
    walk-AreGood desc end parent written obj s r inv h =
        let same : (obj, s) ≡ r = cc in
        subst (λ p. AreGood (L.pb) filter desc p.0) same
          (all_done (L.pb) filter desc written obj inv)
    walk-AreGood desc (field key value pairs) parent written obj s r inv h =
        let (found, is, h) = >>=-eq-ok (find_element (L.pb) (some desc) key) _ h in
        let (inner, deep, h) =
          >>=-eq-ok
            (walk_value (L.pb) (encode_element L table filter mode) (kind (L.pb) found.field) value
              _ s)
            _ h in
        let (done, acted, h) = >>=-eq-ok (encode_element L table filter mode _ _ inner.1) _ h in
        walk-AreGood desc pairs parent (written_by done.0 written) (act key done.0 obj) done.1 r
          (act-AreGoodOr L table plain filter mode desc key value pairs obj written inner.0 found _
            inner.1 done inv is (value-AllSent (kind (L.pb) found.field) value _ s inner deep)
            acted)
          h

    value-AllSent :
        (t : Kind (L.pb)) (v : Json) (address : Address) (s : List (List ℕ))
        → (r : Json × List (List ℕ))
        → walk_value (L.pb) (encode_element L table filter mode) t v address s ≡ ok r
        → AllSent (L.pb) filter t r.0
    value-AllSent leaf v address s r h = leaf-AllSent (L.pb) filter r.0
    value-AllSent (repeated desc) null address s r h =
        let same : (null, s) ≡ r = cc in
        subst (λ p. AllSent (L.pb) filter (repeated desc) p.0) same
          (null-AllSent (L.pb) filter (repeated desc))
    value-AllSent (repeated desc) (object fs) address s r h =
        let (inner, of, h) = >>=-eq-ok (value_type (L.pb) (L.pb.fields_by_name desc "value")) _ h in
        let (q, walked, h) =
          >>=-eq-ok (walk_map (L.pb) (encode_element L table filter mode) inner fs _ s) _ h in
        let same : (object q.0, q.1) ≡ r = cc in
        let kinds = entry_kind-value_type (L.pb) (L.pb.fields_by_name desc "value") inner of in
        subst (λ p. AllSent (L.pb) filter (repeated desc) p.0) same
          (map-AllSent (L.pb) filter desc q.0 (λ k v at.
            subst (λ t. AllSent (L.pb) filter t v) kinds
              (entries-AllSent inner fs _ s q walked k v at)))
    value-AllSent (repeated desc) (array vs) address s r h =
        let (q, walked, h) =
          >>=-eq-ok (walk_items (L.pb) (encode_element L table filter mode) desc vs _ s) _ h in
        let same : (array q.0, q.1) ≡ r = cc in
        subst (λ p. AllSent (L.pb) filter (repeated desc) p.0) same
          (items-AllSent (L.pb) filter desc q.0 (list-AllSent desc vs _ s q walked))
    value-AllSent (repeated desc) (text x) address s r h =
        let same : text x ≡ r.0 = ground arith in
        subst (AllSent (L.pb) filter (repeated desc)) same
          (text-AllSent (L.pb) filter (repeated desc) x)
    value-AllSent (repeated desc) v address s r h = let never : ⊥ = cc in absurd never
    value-AllSent (message desc) null address s r h =
        let same : (null, s) ≡ r = cc in
        subst (λ p. AllSent (L.pb) filter (message desc) p.0) same
          (null-AllSent (L.pb) filter (message desc))
    value-AllSent (message desc) (object fs) address s r h =
        let (q, walked, h) =
          >>=-eq-ok (walk (L.pb) (encode_element L table filter mode) (some desc) fs _ [] fs s) _
            h in
        let same : (object q.0, q.1) ≡ r = cc in
        subst (λ p. AllSent (L.pb) filter (message desc) p.0) same
          (message-AllSent (L.pb) filter desc q.0
            (walk-AreGood desc fs _ [] fs s q (to_come (L.pb) filter desc fs) walked))
    value-AllSent (message desc) v address s r h = let never : ⊥ = cc in absurd never

    entries-AllSent :
        (inner : Option (L.pb.Descriptor)) (fs : Fields) (address : Address) (s : List (List ℕ))
        → (r : Fields × List (List ℕ))
        → walk_map (L.pb) (encode_element L table filter mode) inner fs address s ≡ ok r
        → (k : String) (v : Json) → get k r.0 ≡ some v
        → AllSent (L.pb) filter (map_kind (L.pb) inner) v
    entries-AllSent none fs address s r h k v at = leaf-AllSent (L.pb) filter v
    entries-AllSent (some desc) end address s r h k v at =
        let same : end ≡ r.0 = ground arith in
        get-end k v (AllSent (L.pb) filter (message desc) v)
          (subst (λ l. get k l ≡ some v) (sym same) at)
    entries-AllSent (some desc) (field j (object fs) pairs) address s r h k v at =
        let (q, walked, h) =
          >>=-eq-ok (walk (L.pb) (encode_element L table filter mode) (some desc) fs _ [] fs s) _
            h in
        let (rest, more, h) =
          >>=-eq-ok (walk_map (L.pb) (encode_element L table filter mode) (some desc) pairs _ q.1) _
            h in
        let pair : (field j (object q.0) rest.0, rest.1) ≡ r = cc in
        let same : field j (object q.0) rest.0 ≡ r.0 = ap (λ p. p.0) pair in
        field_or j (object q.0) rest.0 (AllSent (L.pb) filter (message desc))
          (message-AllSent (L.pb) filter desc q.0
            (walk-AreGood desc fs _ [] fs s q (to_come (L.pb) filter desc fs) walked))
          (entries-AllSent (some desc) pairs _ q.1 rest more) k v
          (subst (λ l. get k l ≡ some v) (sym same) at)
    entries-AllSent (some desc) (field j x pairs) address s r h k v at =
        let never : ⊥ = cc in absurd never

    list-AllSent :
        (desc : L.pb.Descriptor) (vs : Items) (address : Address) (s : List (List ℕ))
        → (r : Items × List (List ℕ))
        → walk_items (L.pb) (encode_element L table filter mode) desc vs address s ≡ ok r
        → (i : ℕ) (v : Json) → get_item i r.0 ≡ some v
        → AllSent (L.pb) filter (message desc) v
    list-AllSent desc nil address s r h i v at =
        let same : nil ≡ r.0 = ground arith in
        get_item-nil i v (AllSent (L.pb) filter (message desc) v)
          (subst (λ l. get_item i l ≡ some v) (sym same) at)
    list-AllSent desc (item (object fs) vs) address s r h i v at =
        let (q, walked, h) =
          >>=-eq-ok (walk (L.pb) (encode_element L table filter mode) (some desc) fs _ [] fs s) _
            h in
        let (rest, more, h) =
          >>=-eq-ok (walk_items (L.pb) (encode_element L table filter mode) desc vs _ q.1) _ h in
        let pair : (item (object q.0) rest.0, rest.1) ≡ r = cc in
        let same : item (object q.0) rest.0 ≡ r.0 = ap (λ p. p.0) pair in
        item_or (object q.0) rest.0 (AllSent (L.pb) filter (message desc))
          (message-AllSent (L.pb) filter desc q.0
            (walk-AreGood desc fs _ [] fs s q (to_come (L.pb) filter desc fs) walked))
          (list-AllSent desc vs _ q.1 rest more) i v
          (subst (λ l. get_item i l ≡ some v) (sym same) at)
    list-AllSent desc (item x vs) address s r h i v at = let never : ⊥ = cc in absurd never

  content-AllSent :
      (desc : L.pb.Descriptor) (content : Option Fields) (masks : List (List ℕ))
      → (r : Fields × List (List ℕ))
      → encode_content L table filter mode (some desc) content masks ≡ ok r
      → AllSent (L.pb) filter (message desc) (object r.0)
  unfolding encode_content
  content-AllSent desc none masks r h = let never : ⊥ = cc in absurd never
  content-AllSent desc (some fs) masks r h =
      message-AllSent (L.pb) filter desc r.0
        (walk-AreGood desc fs [] [] fs masks r (to_come (L.pb) filter desc fs) h)

module _ (L : Libraries) (table : Converter) where
  some_content :
      (payload : DecodedPayload) (fs : Fields) (masks : List (List ℕ)) (out : DecodedPayload)
      → ok (record payload { content = some fs; mask_fields = masks }) ≡ ok out
      → out.content ≡ some fs
  some_content payload fs masks out h =
      let same : record payload { content = some fs; mask_fields = masks } ≡ out = cc in
      ap (λ p. p.content) (sym same)

  -- When `pre_encode` returns, the payload has content, and at any depth, in submessages, lists and
  -- maps of messages, every key of a message in it is, without a postfix, the name of a field of that
  -- message which is not ignored and, when values are filtered, not readonly. No field that holds
  -- messages has an option that converts its value.
  pub pre_encode-AllSent :
      (own : Bool) (desc : L.pb.Descriptor) (payload : DecodedPayload) (filter_values : Option Bool)
      → (out : DecodedPayload) → PlainMessages (L.pb)
      → pre_encode L table own desc payload filter_values ≡ ok out
      → (fs : Fields) × (out.content ≡ some fs)
        × AllSent (L.pb) (filtering filter_values own) (message desc) (object fs)
  unfolding pre_encode
  pre_encode-AllSent own desc payload filter_values out plain h =
      let filter = filtering filter_values own in
      let (r, encoded, h) =
        >>=-eq-ok
          (encode_content L table filter payload.mask_mode (some desc) payload.content
            payload.mask_fields)
          _ h in
      (
        r.0,
        some_content payload r.0 r.1 out h,
        content-AllSent L table plain filter payload.mask_mode desc payload.content
            payload.mask_fields r encoded,
      )
