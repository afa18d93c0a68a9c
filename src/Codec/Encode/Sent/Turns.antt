-- ===== src/Codec/Encode/Sent/Turns.antt =====
-- codec/processor.py, `_walk_elements` for `pre_encode`: the keys that had their turn, and those to come.
use brewblox_devcon_spark.Base.{
  if◌then◌else◌, Bool, true, false, List, [], ◌∷◌, Option, none, some, String, ◌≡◌, refl, sym,
  subst, str_eq, arith, ◌⊎◌, inl, inr, eq_iff, Bool-cases,
}
use brewblox_devcon_spark.Base.Exn.{ok}
use brewblox_devcon_spark.Base.Dict.{elem}
use brewblox_devcon_spark.Base.Json.{Json, null, Fields, end, field, get, get_or_null, set_field}
use brewblox_devcon_spark.Codec.Keys.{has_key, del_field}
use brewblox_devcon_spark.Codec.Libraries.{Protobuf}
use brewblox_devcon_spark.Codec.Walk.{
  Found, find_element, find_element-eq, find_element-split, Action, remove, assign, act, written_by,
  kind,
}
use brewblox_devcon_spark.Codec.Encode.Sent.{AllSent, null-AllSent, IsGood, AreGood}

get-del_field :
    (j k : String) (fs : Fields) → get k (del_field j fs) ≡ (if str_eq j k then none else get k fs)
unfolding get del_field
get-del_field j k end = ground arith
get-del_field j k (field i w fs) =
    ground (arith, eq_iff i j, eq_iff i k, eq_iff j k, get-del_field j k fs)

get-set_field :
    (j k : String) (v : Json) (fs : Fields)
    → get k (set_field j v fs) ≡ (if str_eq j k then some v else get k fs)
unfolding get set_field
get-set_field j k v end = refl
get-set_field j k v (field i w fs) =
    ground (arith, eq_iff j k, eq_iff i j, eq_iff i k, get-set_field j k v fs)

get_or_null-eq : (k : String) (fs : Fields) (v : Json) → get k fs ≡ some v → get_or_null k fs ≡ v
unfolding get get_or_null
get_or_null-eq k end v h = cc
get_or_null-eq k (field j w fs) v h = ground (arith, get_or_null-eq k fs v)

get_or_null-none : (k : String) (fs : Fields) → get k fs ≡ none → get_or_null k fs ≡ null
unfolding get get_or_null
get_or_null-none k end h = refl
get_or_null-none k (field j w fs) h = ground (arith, get_or_null-none k fs)

has_key-get : (k : String) (fs : Fields) (v : Json) → get k fs ≡ some v → has_key k fs ≡ true
unfolding get has_key
has_key-get k end v h = cc
has_key-get k (field j w fs) v h = ground (arith, has_key-get k fs v)

module _ (P : Protobuf) (filter : Bool) (desc : P.Descriptor) where
  -- Each entry is as it should be, or its turn is still to come.
  pub AreGoodOr : Fields → List String → Fields → Type 0
  unfolding IsGood
  AreGoodOr pairs written obj =
      (k : String) (v : Json)
      → get k obj ≡ some v
      → IsGood P filter desc k v ⊎ ((has_key k pairs ≡ true) × (elem k written ≡ false))

  pub to_come : (fs : Fields) → AreGoodOr fs [] fs
  unfolding AreGoodOr elem
  to_come fs k v h = inr (has_key-get k fs v h, refl)

  pub all_done :
      (written : List String) (fs : Fields) → AreGoodOr end written fs → AreGood P filter desc fs
  unfolding AreGoodOr AreGood has_key
  all_done written fs h k v is = elim (h k v is) [ inl good ↦ good | inr (later, fresh) ↦ cc ]

  module _ (key : String) (value : Json) (pairs obj : Fields) (written : List String)
      (inv : AreGoodOr (field key value pairs) written obj) where
    other_key :
        (k : String) (v : Json)
        → str_eq key k ≡ false
        → get k obj ≡ some v
        → IsGood P filter desc k v ⊎ ((has_key k pairs ≡ true) × (elem k written ≡ false))
    unfolding AreGoodOr has_key
    other_key k v other is = elim (inv k v is) [
      | inl good ↦ inl good
      | inr (later, fresh) ↦ inr (ground arith, fresh)
    ]

    removed : AreGoodOr pairs written (del_field key obj)
    unfolding AreGoodOr
    removed k v is = elim (Bool-cases (str_eq key k)) [
      | inl same ↦ let gone : none ≡ some v = rw (← is, get-del_field key k obj, same) refl in cc
      | inr other ↦
          let there : get k obj ≡ some v = rw (← is, get-del_field key k obj, other) refl in
          other_key k v other there
    ]

    left_behind :
        (base_key k : String) (v : Json)
        → str_eq base_key k ≡ false
        → get k (if str_eq key base_key then obj else del_field key obj) ≡ some v
        → IsGood P filter desc k v ⊎ ((has_key k pairs ≡ true) × (elem k written ≡ false))
    left_behind base_key k v other is = elim (Bool-cases (str_eq key base_key)) [
      | inl same ↦
          let there : get k obj ≡ some v = rw (← is, same) refl in
          let apart : str_eq key k ≡ false =
            ground (arith, eq_iff key base_key, eq_iff key k, eq_iff base_key k) in
          other_key k v apart there
      | inr moved ↦
          let there : get k (del_field key obj) ≡ some v = rw (← is, moved) refl in
          unfold AreGoodOr in removed k v there
    ]

    pub act-assign :
        (base_key : String) (w : Json)
        → IsGood P filter desc base_key w
        → AreGoodOr pairs (base_key ∷ written) (act key (assign base_key w) obj)
    unfolding AreGoodOr act elem
    act-assign base_key w good k v is = elim (Bool-cases (str_eq base_key k)) [
      | inl same ↦
          let here : some w ≡ some v =
            rw
              (
                ← is,
                get-set_field base_key k w (if str_eq key base_key then obj else del_field key obj),
                same,
              )
              refl in
          let value_is : w ≡ v = cc in
          let key_is : base_key ≡ k = (eq_iff base_key k).0 same in
          inl (
            subst (λ j. IsGood P filter desc j v) key_is
              (subst (IsGood P filter desc base_key) value_is good))
      | inr other ↦
          let there : get k (if str_eq key base_key then obj else del_field key obj) ≡ some v =
            rw
              (
                ← is,
                get-set_field base_key k w (if str_eq key base_key then obj else del_field key obj),
                other,
              )
              refl in
          elim (left_behind base_key k v other there) [
            | inl good ↦ inl good
            | inr (later, fresh) ↦ inr (later, ground (arith, other, fresh))
          ]
    ]

    pub act-gone :
        (a : Action) → a ≡ remove → AreGoodOr pairs (written_by a written) (act key a obj)
    unfolding act
    act-gone a gone =
        subst (λ b. AreGoodOr pairs (written_by b written) (act key b obj)) (sym gone) removed

    -- The value that an element has when its turn comes.
    pub current-AllSent :
        (found : Found P) (inner : Json)
        → find_element P (some desc) key ≡ ok found
        → AllSent P filter (kind P found.field) inner
        → AllSent P filter
            (kind P found.field)
            (if elem key written then get_or_null key obj else inner)
    unfolding AreGoodOr IsGood
    current-AllSent found inner is sent = elim (Bool-cases (elem key written)) [
      | inr fresh ↦ rw fresh sent
      | inl there ↦ rw there (at there (get key obj) refl)
    ]
      where
        at :
            elem key written ≡ true
            → (o : Option Json) → get key obj ≡ o
            → AllSent P filter (kind P found.field) (get_or_null key obj)
        at there none e =
            rw (get_or_null-none key obj e) (null-AllSent P filter (kind P found.field))
        at there (some v) e = rw (get_or_null-eq key obj v e) (elim (inv key v e) [
          | inl (base, (f, named, shown, kept, below)) ↦
              let (postfix, split) = find_element-split P desc key found is in
              let key_is : key ≡ found.base_key = cc in
              let found_is = find_element-eq P desc key found is in
              let same : f ≡ found.field = cc in
              subst (λ g. AllSent P filter (kind P g) v) same below
          | inr (later, fresh) ↦ let never : ⊥ = cc in absurd never
        ])
