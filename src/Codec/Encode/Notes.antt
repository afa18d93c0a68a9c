-- ===== src/Codec/Encode/Notes.antt =====
-- codec/processor.py: what a walk notes, when the body of its loop adds something to a list at each
-- element.
use brewblox_devcon_spark.Base.{
  List, [], ◌∷◌, ◌++◌, Option, none, some, String, ◌≡◌, sym, ap, ◌∙◌, str_eq, append-nil,
  append_assoc, if-cases, inl, inr,
}
use brewblox_devcon_spark.Base.Exn.{Result, ok, err, >>=-eq-ok, attribute_error}
use brewblox_devcon_spark.Base.Json.{
  Json, null, text, array, object, Items, nil, item, Fields, end, field,
}
use brewblox_devcon_spark.Codec.Libraries.{Protobuf}
use brewblox_devcon_spark.Codec.Walk.{
  Address, OptionElement, Kind, leaf, repeated, message, find_element, Action, walk, walk_value,
  walk_map, walk_items, kind, element_address, value_type,
}

-- Nothing, where there was an error.
abbrev or_nil : {A M : Type 0} → Result A → (A → List M) → List M
or_nil (err e) f = []
or_nil (ok a) f = f a

-- A step that leaves the state alone.
module _ {A M : Type 0} where
  pub same_state : (a : A) (s : List M) (r : A × List M) → ok (a, s) ≡ ok r → r.1 ≡ s ++ []
  same_state a s r h = let same : (a, s) ≡ r = cc in ap (λ p. p.1) (sym same) ∙ sym (append-nil s)

  pub next_state : (a : A) (s : List M) (r : A × List M) → ok (a, s) ≡ ok r → r.1 ≡ s
  next_state a s r h = let same : (a, s) ≡ r = cc in ap (λ p. p.1) (sym same)

-- A depth-first walk that changes nothing and notes something at each element.
module _ (P : Protobuf) {M : Type 0} (note : P.FieldDescriptor → Address → List M) where
  mutual
    pub notes : Option P.Descriptor → Fields → Address → List M
    notes desc end parent = []
    notes desc (field key v pairs) parent =
        or_nil (find_element P desc key) (λ found.
          let address = parent ++ some (P.number found.field) ∷ [] in
          notes_value (kind P found.field) v address
          ++ note found.field (element_address P (kind P found.field) v address))
        ++ notes desc pairs parent

    notes_value : Kind P → Json → Address → List M
    notes_value (message desc) (object fs) address = notes (some desc) fs address
    notes_value (repeated desc) (object fs) address =
        or_nil (value_type P (P.fields_by_name desc "value"))
          (λ inner. notes_map inner fs (address ++ none ∷ []))
    notes_value (repeated desc) (array vs) address = notes_items desc vs (address ++ none ∷ [])
    notes_value _ _ address = []

    notes_map : Option P.Descriptor → Fields → Address → List M
    notes_map desc (field key (object fs) pairs) address =
        notes desc fs address ++ notes_map desc pairs address
    notes_map desc _ address = []

    notes_items : P.Descriptor → Items → Address → List M
    notes_items desc (item (object fs) vs) address =
        notes (some desc) fs address ++ notes_items desc vs address
    notes_items desc _ address = []

  -- Two steps, one behind the other.
  two_notes : (s t u xs ys : List M) → t ≡ s ++ xs → u ≡ t ++ ys → u ≡ s ++ (xs ++ ys)
  two_notes s t u xs ys h k = k ∙ ap (λ l. l ++ ys) h ∙ append_assoc s xs ys

  module _ (handle : OptionElement P → Json → List M → Result (Action × List M))
      (noted : (e : OptionElement P) (v : Json) (s : List M) (r : Action × List M)
        → handle e v s ≡ ok r
        → r.1 ≡ s ++ note e.field e.address) where
    mutual
      unfolding walk notes

      pub walk-notes :
          (desc : Option P.Descriptor) (pairs : Fields) (parent : Address) (written : List String)
          → (obj : Fields) (s : List M) (r : Fields × List M)
          → walk P handle desc pairs parent written obj s ≡ ok r
          → r.1 ≡ s ++ notes desc pairs parent
      walk-notes desc end parent written obj s r h = same_state obj s r h
      walk-notes desc (field key value pairs) parent written obj s r h =
          let (found, is, h) = >>=-eq-ok (find_element P desc key) _ h in
          let (inner, below, h) =
            >>=-eq-ok (walk_value P handle (kind P found.field) value _ s) _ h in
          let (done, acted, h) = >>=-eq-ok (handle _ _ inner.1) _ h in
          rw is (
            two_notes s done.1 r.1 _ _
              (two_notes s inner.1 done.1 _ _
                (walk_value-notes (kind P found.field) value _ s inner below)
                (noted _ _ inner.1 done acted))
              (walk-notes desc pairs parent _ _ done.1 r h))

      walk_value-notes :
          (k : Kind P) (v : Json) (address : Address) (s : List M) (r : Json × List M)
          → walk_value P handle k v address s ≡ ok r
          → r.1 ≡ s ++ notes_value k v address
      walk_value-notes leaf v address s r h = same_state v s r h
      walk_value-notes (repeated desc) null address s r h = same_state null s r h
      walk_value-notes (repeated desc) (object fs) address s r h =
          let (inner, is, h) = >>=-eq-ok (value_type P (P.fields_by_name desc "value")) _ h in
          let (q, below, h) = >>=-eq-ok (walk_map P handle inner fs _ s) _ h in
          rw is (next_state (object q.0) q.1 r h ∙ walk_map-notes inner fs _ s q below)
      walk_value-notes (repeated desc) (array vs) address s r h =
          let (q, below, h) = >>=-eq-ok (walk_items P handle desc vs _ s) _ h in
          next_state (array q.0) q.1 r h ∙ walk_items-notes desc vs _ s q below
      walk_value-notes (repeated desc) (text t) address s r h =
          elim (if-cases (str_eq t "") (ok (text t, s)) (err attribute_error) (ok r) h) [
            | inl (_, h) ↦ same_state (text t) s r h
            | inr (_, h) ↦ cc
          ]
      walk_value-notes (repeated desc) _ address s r h = cc
      walk_value-notes (message desc) null address s r h = same_state null s r h
      walk_value-notes (message desc) (object fs) address s r h =
          let (q, below, h) = >>=-eq-ok (walk P handle (some desc) fs address [] fs s) _ h in
          next_state (object q.0) q.1 r h ∙ walk-notes (some desc) fs address [] fs s q below
      walk_value-notes (message desc) _ address s r h = cc

      walk_map-notes :
          (desc : Option P.Descriptor) (fs : Fields) (address : Address) (s : List M)
          → (r : Fields × List M) → walk_map P handle desc fs address s ≡ ok r
          → r.1 ≡ s ++ notes_map desc fs address
      walk_map-notes desc end address s r h = same_state end s r h
      walk_map-notes desc (field key (object fs) pairs) address s r h =
          let (q, below, h) = >>=-eq-ok (walk P handle desc fs address [] fs s) _ h in
          let (t, rest, h) = >>=-eq-ok (walk_map P handle desc pairs address q.1) _ h in
          next_state (field key (object q.0) t.0) t.1 r h
          ∙ two_notes s q.1 t.1 _ _ (walk-notes desc fs address [] fs s q below)
              (walk_map-notes desc pairs address q.1 t rest)
      walk_map-notes desc (field key _ pairs) address s r h = cc

      walk_items-notes :
          (desc : P.Descriptor) (vs : Items) (address : Address) (s : List M) (r : Items × List M)
          → walk_items P handle desc vs address s ≡ ok r
          → r.1 ≡ s ++ notes_items desc vs address
      walk_items-notes desc nil address s r h = same_state nil s r h
      walk_items-notes desc (item (object fs) vs) address s r h =
          let (q, below, h) = >>=-eq-ok (walk P handle (some desc) fs address [] fs s) _ h in
          let (t, rest, h) = >>=-eq-ok (walk_items P handle desc vs address q.1) _ h in
          next_state (item (object q.0) t.0) t.1 r h
          ∙ two_notes s q.1 t.1 _ _ (walk-notes (some desc) fs address [] fs s q below)
              (walk_items-notes desc vs address q.1 t rest)
      walk_items-notes desc (item _ vs) address s r h = cc
