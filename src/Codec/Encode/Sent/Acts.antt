-- ===== src/Codec/Encode/Sent/Acts.antt =====
-- codec/processor.py, `pre_encode`: what the object is like behind the turn of one key.
use brewblox_devcon_spark.Base.{
  ◌&&◌, if◌then◌else◌, ℕ, Bool, true, false, List, some, String, ◌≡◌, sym, subst, arith, ◌⊎◌, inl,
  inr,
}
use brewblox_devcon_spark.Base.Exn.{ok}
use brewblox_devcon_spark.Base.Dict.{elem}
use brewblox_devcon_spark.Base.Json.{Json, Fields, field, get_or_null}
use brewblox_devcon_spark.Models.Messages.{MaskMode}
use brewblox_devcon_spark.Codec.Keys.{split_key-base}
use brewblox_devcon_spark.Codec.Libraries.{Libraries}
use brewblox_devcon_spark.Codec.Units.{Converter}
use brewblox_devcon_spark.Codec.Walk.{
  Address, Found, find_element, find_element-eq, find_element-split, Action, remove, assign, act,
  written_by, kind,
}
use brewblox_devcon_spark.Codec.Encode.{encode_element, is_stripped}
use brewblox_devcon_spark.Codec.Encode.Sent.{AllSent, IsGood, PlainMessages}
use brewblox_devcon_spark.Codec.Encode.Sent.Elements.{element-IsKept}
use brewblox_devcon_spark.Codec.Encode.Sent.Turns.{AreGoodOr, act-assign, act-gone, current-AllSent}

if_true-false : (a b : Bool) → (if a then true else b) ≡ false → (a ≡ false) × (b ≡ false)
if_true-false a b h = ground arith

module _ (L : Libraries) (table : Converter) (plain : PlainMessages (L.pb)) (filter : Bool)
    (mode : MaskMode) where
  kept-IsGood :
      (desc : L.pb.Descriptor) (key : String) (found : Found (L.pb)) (w : Json)
      → find_element (L.pb) (some desc) key ≡ ok found
      → is_stripped filter (L.pb.options found.field) ≡ false
      → AllSent (L.pb) filter (kind (L.pb) found.field) w
      → IsGood (L.pb) filter desc found.base_key w
  unfolding IsGood is_stripped
  kept-IsGood desc key found w is kept sent =
      let (postfix, split) = find_element-split (L.pb) desc key found is in
      let (shown, rest) =
        if_true-false (L.pb.options found.field).ignored
          (filter && (L.pb.options found.field).readonly) kept in
      (
        split_key-base key found.base_key postfix split,
        (found.field, find_element-eq (L.pb) desc key found is, shown, rest, sent),
      )

  pub act-AreGoodOr :
      (desc : L.pb.Descriptor) (key : String) (value : Json) (pairs obj : Fields)
      → (written : List String) (inner : Json) (found : Found (L.pb)) (address : Address)
      → (s : List (List ℕ)) (r : Action × List (List ℕ))
      → AreGoodOr (L.pb) filter desc (field key value pairs) written obj
      → find_element (L.pb) (some desc) key ≡ ok found
      → AllSent (L.pb) filter (kind (L.pb) found.field) inner
      → encode_element L table filter mode
          (record {
            field = found.field;
            key = key;
            base_key = found.base_key;
            postfix = found.postfix;
            address = address;
          })
          (if elem key written then get_or_null key obj else inner)
          s
        ≡ ok r
      → AreGoodOr (L.pb) filter desc pairs (written_by r.0 written) (act key r.0 obj)
  act-AreGoodOr desc key value pairs obj written inner found address s r inv is sent acted =
      let current =
        current-AllSent (L.pb) filter desc key value pairs obj written inv found inner is sent in
      elim (element-IsKept L table plain filter mode _ _ s r acted current) [
        | inl gone ↦ act-gone (L.pb) filter desc key value pairs obj written inv r.0 gone
        | inr (kept, outcome) ↦ put kept outcome
      ]
    where
      put :
          is_stripped filter (L.pb.options found.field) ≡ false
          → (r.0 ≡ remove)
            ⊎ ((w : Json) × (r.0 ≡ assign found.base_key w)
                × AllSent (L.pb) filter (kind (L.pb) found.field) w)
          → AreGoodOr (L.pb) filter desc pairs (written_by r.0 written) (act key r.0 obj)
      put kept (inl gone) = act-gone (L.pb) filter desc key value pairs obj written inv r.0 gone
      put kept (inr (w, done, below)) =
          subst (λ a. AreGoodOr (L.pb) filter desc pairs (written_by a written) (act key a obj))
            (sym done)
            (act-assign (L.pb) filter desc key value pairs obj written inv found.base_key w
              (kept-IsGood desc key found w is kept below))
