-- ===== src/Codec/Encode/Sent/Elements.antt =====
-- codec/processor.py, the body of the loop of `pre_encode`: what becomes of one element.
use brewblox_devcon_spark.Base.{
  ℕ, zero, suc, Bool, false, List, Option, none, some, String, ◌≡◌, refl, sym, ap, subst, ◌⊎◌, inl,
  inr, if-cases, ◌∙◌,
}
use brewblox_devcon_spark.Base.Exn.{Result, ok, ◌>>=◌, >>=-eq-ok}
use brewblox_devcon_spark.Base.Json.{
  Json, null, boolean, number, negative, float, text, array, object, Items, nil, item,
}
use brewblox_devcon_spark.Models.Messages.{MaskMode}
use brewblox_devcon_spark.Codec.Libraries.{Libraries}
use brewblox_devcon_spark.Codec.Units.{Converter}
use brewblox_devcon_spark.Codec.Values.{encode_value}
use brewblox_devcon_spark.Codec.Walk.{OptionElement, Action, remove, assign, leaf, kind}
use brewblox_devcon_spark.Codec.Encode.{
  encode_items, encode_element, encode_current, is_stripped, add_mask,
}
use brewblox_devcon_spark.Codec.Encode.Sent.{
  get_item, AllSent, leaf-AllSent, array-AllSent, item_or, IsPlain, PlainMessages,
}

-- What is done with an element that is sent.
abbrev IsDone : String → Action → Type 0
IsDone base_key a = (a ≡ remove) ⊎ ((v : Json) × (a ≡ assign base_key v))

assign-IsDone {ℓ} :
    {A : Type ℓ} (base_key : String) (r : Result A) (to : A → Json) (a : Action)
    → (r >>= (λ w. ok (assign base_key (to w)))) ≡ ok a
    → IsDone base_key a
assign-IsDone base_key r to a h =
    let (w, _, same) = >>=-eq-ok r (λ w. ok (assign base_key (to w))) h in
    let same : assign base_key (to w) ≡ a = cc in inr (to w, sym same)

module _ (L : Libraries) (table : Converter) where
  encode_current-IsDone :
      (e : OptionElement (L.pb)) (v : Json) (a : Action)
      → encode_current L table e v ≡ ok a
      → IsDone e.base_key a
  unfolding encode_current
  encode_current-IsDone e null a h = let same : remove ≡ a = cc in inl (sym same)
  encode_current-IsDone e (array vs) a h = assign-IsDone e.base_key _ array a h
  encode_current-IsDone e (boolean b) a h = assign-IsDone e.base_key _ (λ w. w) a h
  encode_current-IsDone e (number n) a h = assign-IsDone e.base_key _ (λ w. w) a h
  encode_current-IsDone e (negative n) a h = assign-IsDone e.base_key _ (λ w. w) a h
  encode_current-IsDone e (float n) a h = assign-IsDone e.base_key _ (λ w. w) a h
  encode_current-IsDone e (text s) a h = assign-IsDone e.base_key _ (λ w. w) a h
  encode_current-IsDone e (object fs) a h = assign-IsDone e.base_key _ (λ w. w) a h

module _ (L : Libraries) (table : Converter) (plain : PlainMessages (L.pb)) where
  encode_value-IsPlain :
      (f : L.pb.FieldDescriptor) (suffix : String) (v : Json)
      → IsPlain (L.pb) f
      → encode_value L table (L.pb.options f) (L.pb.is_int f) suffix v ≡ ok v
  unfolding encode_value
  encode_value-IsPlain f suffix v (a, b, c, d, e, g, h, i) = rw (a, b, c, d, e, g, h, i) refl

  encode_items-kept :
      (f : L.pb.FieldDescriptor) (suffix : String) (vs ws : Items) (Q : Json → Type 0)
      → IsPlain (L.pb) f
      → encode_items L table (L.pb.options f) (L.pb.is_int f) suffix vs ≡ ok ws
      → ((i : ℕ) (v : Json) → get_item i vs ≡ some v → Q v)
      → (i : ℕ) (v : Json) → get_item i ws ≡ some v
      → Q v
  unfolding encode_items
  encode_items-kept f suffix nil ws Q is h all =
      let same : nil ≡ ws = cc in
      subst (λ l. (i : ℕ) (v : Json) → get_item i l ≡ some v → Q v) same all
  encode_items-kept f suffix (item null vs) ws Q is h all =
      encode_items-kept f suffix vs ws Q is h (λ i v at. all (suc i) v (unfold get_item in at))
  encode_items-kept f suffix (item x vs) ws Q is h all =
      let (w, one, h) =
        >>=-eq-ok (encode_value L table (L.pb.options f) (L.pb.is_int f) suffix x) _ h in
      let (rest, more, h) =
        >>=-eq-ok (encode_items L table (L.pb.options f) (L.pb.is_int f) suffix vs) _ h in
      let kept : ok x ≡ ok w = sym (encode_value-IsPlain f suffix x is) ∙ one in
      let here : x ≡ w = cc in
      let same : item w rest ≡ ws = cc in
      let later =
        encode_items-kept f suffix vs rest Q is more
          (λ i v at. all (suc i) v (unfold get_item in at)) in
      subst (λ l. (i : ℕ) (v : Json) → get_item i l ≡ some v → Q v) same
        (item_or w rest Q (subst Q here (all zero x (unfold get_item in refl))) later)

  kind-cases : (f : L.pb.FieldDescriptor) → (kind (L.pb) f ≡ leaf) ⊎ IsPlain (L.pb) f
  kind-cases f = of (L.pb.message_type f) refl
    where
      of :
          (o : Option (L.pb.Descriptor))
          → L.pb.message_type f ≡ o
          → (kind (L.pb) f ≡ leaf) ⊎ IsPlain (L.pb) f
      of none e = inl (rw e refl)
      of (some desc) e = inr (plain f desc e)

  module _ (filter : Bool) where
    -- What becomes of an element: it goes, or its new value is sent at every path.
    abbrev pub IsKept : L.pb.FieldDescriptor → String → Action → Type 0
    IsKept f base_key a =
        (a ≡ remove)
        ⊎ ((w : Json) × (a ≡ assign base_key w) × AllSent (L.pb) filter (kind (L.pb) f) w)

    leaf-IsKept :
        (f : L.pb.FieldDescriptor) (base_key : String) (a : Action)
        → kind (L.pb) f ≡ leaf
        → IsDone base_key a
        → IsKept f base_key a
    leaf-IsKept f base_key a is (inl gone) = inl gone
    leaf-IsKept f base_key a is (inr (w, put)) =
        inr (w, put, subst (λ t. AllSent (L.pb) filter t w) (sym is) (leaf-AllSent (L.pb) filter w))

    value-IsKept :
        (e : OptionElement (L.pb)) (v : Json) (a : Action)
        → IsPlain (L.pb) e.field
        → (encode_value L table (L.pb.options e.field) (L.pb.is_int e.field) e.postfix v
            >>= (λ w. ok (assign e.base_key w)))
          ≡ ok a
        → AllSent (L.pb) filter (kind (L.pb) e.field) v
        → IsKept e.field e.base_key a
    value-IsKept e v a is h sent =
        let (w, one, h) =
          >>=-eq-ok (encode_value L table (L.pb.options e.field) (L.pb.is_int e.field) e.postfix v)
            _ h in
        let kept : ok v ≡ ok w = sym (encode_value-IsPlain e.field e.postfix v is) ∙ one in
        let same : v ≡ w = cc in
        let done : assign e.base_key w ≡ a = cc in
        inr (w, sym done, subst (AllSent (L.pb) filter (kind (L.pb) e.field)) same sent)

    plain-IsKept :
        (e : OptionElement (L.pb)) (v : Json) (a : Action)
        → IsPlain (L.pb) e.field
        → encode_current L table e v ≡ ok a
        → AllSent (L.pb) filter (kind (L.pb) e.field) v
        → IsKept e.field e.base_key a
    unfolding encode_current
    plain-IsKept e null a is h sent = let same : remove ≡ a = cc in inl (sym same)
    plain-IsKept e (array vs) a is h sent =
        let (ws, all, h) =
          >>=-eq-ok (encode_items L table (L.pb.options e.field) (L.pb.is_int e.field) e.postfix vs)
            _ h in
        let done : assign e.base_key (array ws) ≡ a = cc in
        inr (
          array ws,
          sym done,
          array-AllSent (L.pb) filter (kind (L.pb) e.field) vs ws
              (λ Q. encode_items-kept e.field e.postfix vs ws Q is all) sent,
        )
    plain-IsKept e v a is h sent = value-IsKept e v a is h sent

    pub element-IsKept :
        (mode : MaskMode) (e : OptionElement (L.pb)) (v : Json) (s : List (List ℕ))
        → (r : Action × List (List ℕ)) → encode_element L table filter mode e v s ≡ ok r
        → AllSent (L.pb) filter (kind (L.pb) e.field) v
        → (r.0 ≡ remove)
          ⊎ ((is_stripped filter (L.pb.options e.field) ≡ false) × IsKept e.field e.base_key r.0)
    unfolding encode_element
    element-IsKept mode e v s r h sent =
        elim (if-cases (is_stripped filter (L.pb.options e.field)) (ok (remove, s))
          (encode_current L table e v >>= (λ a. ok (a, add_mask mode e.address s))) (ok r) h) [
            | inl (_, h) ↦ let same : (remove, s) ≡ r = cc in inl (sym (ap (λ p. p.0) same))
            | inr (kept, h) ↦
                let (a, acted, h) = >>=-eq-ok (encode_current L table e v) _ h in
                let same : (a, add_mask mode e.address s) ≡ r = cc in
                let is : a ≡ r.0 = ap (λ p. p.0) same in
                inr (
                  kept,
                  subst (IsKept e.field e.base_key) is (elim (kind-cases e.field) [
                    | inl leaf_kind ↦
                        leaf-IsKept e.field e.base_key a leaf_kind
                          (encode_current-IsDone L table e v a acted)
                    | inr no_option ↦ plain-IsKept e v a no_option acted sent
                  ]),
                )
          ]
