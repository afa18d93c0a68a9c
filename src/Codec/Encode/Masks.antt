-- ===== src/Codec/Encode/Masks.antt =====
-- codec/processor.py, `pre_encode`: the mask fields that an inclusive mask gets.
use brewblox_devcon_spark.Base.{
  ◌&&◌, ◌||◌, true, false, Bool-cases, ℕ, Bool, List, [], ◌∷◌, ◌++◌, Option, none, some, ◌≡◌, refl,
  sym, ap, ◌∙◌, subst, if◌then◌else◌, append-nil, if-cases, inl, inr,
}
use brewblox_devcon_spark.Base.Exn.{ok, ◌>>=◌, >>=-eq-ok}
use brewblox_devcon_spark.Base.Json.{Json, Fields}
use brewblox_devcon_spark.Models.Messages.{DecodedPayload, MaskMode, no_mask, inclusive, exclusive}
use brewblox_devcon_spark.Codec.Libraries.{Libraries}
use brewblox_devcon_spark.Codec.Units.{Converter}
use brewblox_devcon_spark.Codec.Walk.{Address, OptionElement, Action, remove}
use brewblox_devcon_spark.Codec.Encode.Notes.{notes, same_state, next_state, walk-notes}
use brewblox_devcon_spark.Codec.Encode.{
  encode_element, encode_content, encode_current, pre_encode, is_stripped, add_mask, append_mask,
  is_inclusive, complete, cons_tag, filtering,
}

abbrev to_list : Option (List ℕ) → List (List ℕ)
to_list none = []
to_list (some tags) = tags ∷ []

abbrev has_none : Address → Bool
has_none [] = false
has_none (none ∷ address) = true
has_none (some n ∷ address) = has_none address

abbrev tags : Address → List ℕ
tags [] = []
tags (none ∷ address) = tags address
tags (some n ∷ address) = n ∷ tags address

-- The mask of one field: none in another mask mode, for a field that is ignored or filtered, or for
-- an address with None.
pub sent_mask : MaskMode → Bool → (L : Libraries) → L.pb.FieldDescriptor → Address → List (List ℕ)
sent_mask inclusive filter L f address =
    if has_none address || (L.pb.options f).ignored || (filter && (L.pb.options f).readonly)
    then []
    else tags address ∷ []
sent_mask _ filter L f address = []

complete-tags :
    (address : Address)
    → complete address ≡ (if has_none address then none else some (tags address))
unfolding complete cons_tag
complete-tags [] = refl
complete-tags (none ∷ address) = refl
complete-tags (some n ∷ address) =
    rw (complete-tags address)
      (elim (Bool-cases (has_none address)) [ inl e ↦ rw e refl | inr e ↦ rw e refl ])

to_list-complete :
    (address : Address)
    → to_list (complete address) ≡ (if has_none address then [] else tags address ∷ [])
to_list-complete address =
    rw (complete-tags address)
      (elim (Bool-cases (has_none address)) [ inl e ↦ rw e refl | inr e ↦ rw e refl ])

append_mask-eq :
    (o : Option (List ℕ)) (masks : List (List ℕ)) → append_mask o masks ≡ masks ++ to_list o
unfolding append_mask
append_mask-eq none masks = sym (append-nil masks)
append_mask-eq (some tags) masks = refl

choice :
    (ignored readonly address : Bool) (masks : List (List ℕ))
    → (if (if ignored then true else readonly) then [] else if address then [] else masks)
      ≡ (if address || ignored || readonly then [] else masks)
choice true readonly true masks = refl
choice true readonly false masks = refl
choice false true true masks = refl
choice false true false masks = refl
choice false false true masks = refl
choice false false false masks = refl

if-same {ℓ} : {A : Type ℓ} (b : Bool) (x : A) → (if b then x else x) ≡ x
if-same true x = refl
if-same false x = refl

add_mask-eq :
    (mode : MaskMode) (address : Address) (masks : List (List ℕ))
    → add_mask mode address masks
      ≡ masks ++ (if is_inclusive mode then to_list (complete address) else [])
unfolding add_mask is_inclusive
add_mask-eq inclusive address masks = append_mask-eq (complete address) masks
add_mask-eq no_mask address masks = sym (append-nil masks)
add_mask-eq exclusive address masks = sym (append-nil masks)

module _ (L : Libraries) (table : Converter) where
  sent_mask-eq :
      (mode : MaskMode) (filter : Bool) (f : L.pb.FieldDescriptor) (address : Address)
      → (if is_stripped filter (L.pb.options f)
          then []
          else if is_inclusive mode
          then to_list (complete address)
          else [])
        ≡ sent_mask mode filter L f address
  unfolding sent_mask is_stripped is_inclusive
  sent_mask-eq inclusive filter f address = rw (to_list-complete address) (
      choice (L.pb.options f).ignored (filter && (L.pb.options f).readonly) (has_none address)
        (tags address ∷ []))
  sent_mask-eq no_mask filter f address = if-same (is_stripped filter (L.pb.options f)) []
  sent_mask-eq exclusive filter f address = if-same (is_stripped filter (L.pb.options f)) []

  encode_element-mask :
      (filter : Bool) (mode : MaskMode) (e : OptionElement (L.pb)) (v : Json) (s : List (List ℕ))
      → (r : Action × List (List ℕ)) → encode_element L table filter mode e v s ≡ ok r
      → r.1
        ≡ s
          ++ (if is_stripped filter (L.pb.options e.field)
              then []
              else if is_inclusive mode
              then to_list (complete e.address)
              else [])
  unfolding encode_element
  encode_element-mask filter mode e v s r h =
      let strip = is_stripped filter (L.pb.options e.field) in
      elim (if-cases strip (ok (remove, s))
        (encode_current L table e v >>= (λ a. ok (a, add_mask mode e.address s))) (ok r) h) [
          | inl (is, h) ↦ rw is (same_state remove s r h)
          | inr (is, h) ↦
              let (a, acted, h) = >>=-eq-ok (encode_current L table e v) _ h in
              rw is (next_state a (add_mask mode e.address s) r h ∙ add_mask-eq mode e.address s)
        ]

  encode_element-noted :
      (filter : Bool) (mode : MaskMode) (e : OptionElement (L.pb)) (v : Json) (s : List (List ℕ))
      → (r : Action × List (List ℕ)) → encode_element L table filter mode e v s ≡ ok r
      → r.1 ≡ s ++ sent_mask mode filter L e.field e.address
  encode_element-noted filter mode e v s r h =
      encode_element-mask filter mode e v s r h
      ∙ ap (λ ms. s ++ ms) (sent_mask-eq mode filter e.field e.address)

  -- When `pre_encode` returns for some content, it has added to the mask fields what one depth-first
  -- walk of the content as it was given finds: in an inclusive mask the address of each leaf that is
  -- sent and stands in no repeated field, and nothing in another mask mode.
  pub pre_encode-notes :
      (own : Bool) (desc : L.pb.Descriptor) (payload : DecodedPayload) (filter_values : Option Bool)
      → (fs : Fields) (out : DecodedPayload) → payload.content ≡ some fs
      → pre_encode L table own desc payload filter_values ≡ ok out
      → out.mask_fields
        ≡ payload.mask_fields
          ++ notes
              (L.pb)
              (sent_mask payload.mask_mode (filtering filter_values own) L)
              (some desc)
              fs
              []
  unfolding pre_encode encode_content
  pre_encode-notes own desc payload filter_values fs out is h =
      let filter = filtering filter_values own in
      let handle = encode_element L table filter payload.mask_mode in
      let (r, encoded, h) =
        >>=-eq-ok
          (encode_content L table filter payload.mask_mode (some desc) payload.content
            payload.mask_fields)
          _ h in
      let same : record payload { content = some r.0; mask_fields = r.1 } ≡ out = cc in
      ap (λ p. p.mask_fields) (sym same)
      ∙ walk-notes (L.pb) (sent_mask payload.mask_mode filter L) handle
          (encode_element-noted filter payload.mask_mode) (some desc) fs [] [] fs
          payload.mask_fields r
          (subst
            (λ c.
              encode_content L table filter payload.mask_mode (some desc) c payload.mask_fields
              ≡ ok r)
            is encoded)
