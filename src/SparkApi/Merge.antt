-- ===== src/SparkApi/Merge.antt =====
-- What `merge` leaves under each key and each path of keys.
use brewblox_devcon_spark.Base.{
  ◌≡◌, refl, ◌∙◌, ap, sym, subst, String, List, [], ◌∷◌, Option, none, some, arith, ◌⊎◌, inl, inr,
  Bool-cases, str_eq, eq_iff, if◌then◌else◌,
}
use brewblox_devcon_spark.Base.Json.{
  Json, null, boolean, number, negative, float, text, array, object, Fields, end, field, get,
  set_field,
}
use brewblox_devcon_spark.SparkApi.Links.{merge, merge_at}

get-set_field :
    (k j : String) (v : Json) (fs : Fields)
    → get j (set_field k v fs) ≡ (if str_eq k j then some v else get j fs)
unfolding get set_field
get-set_field k j v end = refl
get-set_field k j v (field i w fs) =
    ground (arith, eq_iff k j, eq_iff i k, eq_iff i j, get-set_field k j v fs)

-- No key twice in the dict nor in a dict under one of its keys, as in Python.
abbrev mutual
  pub HasDistinctKeys : Fields → Type 0
  HasDistinctKeys end = Unit
  HasDistinctKeys (field k v fs) = (get k fs ≡ none) × IsDistinct v × HasDistinctKeys fs

  pub IsDistinct : Json → Type 0
  IsDistinct (object fs) = HasDistinctKeys fs
  IsDistinct _ = Unit

-- What a key of the first dict becomes, by the value there in the second.
merged : Option Json → Option Json → Option Json
merged old none = old
merged old (some v) = some (merge_at old v)

get-merge :
    (k : String) (a b : Fields) → HasDistinctKeys b → get k (merge a b) ≡ merged (get k a) (get k b)
unfolding get merge merged
get-merge k a end h = refl
get-merge k a (field j v b) h =
    rw
      (
        get-merge k (set_field j (merge_at (get j a) v) a) b h.2,
        get-set_field j k (merge_at (get j a) v) a,
      )
      (elim (Bool-cases (str_eq j k)) [
        | inl same ↦
            let e : j ≡ k = ground (arith, eq_iff j k) in
            let fresh : get k b ≡ none = rw (← e) h.0 in rw (same, fresh, e) refl
        | inr other ↦ rw other refl
      ])

-- What stands at a path of keys.
pub data Seen : Type 0 where
  absent dict : Seen
  leaf : Json → Seen

unfoldable pub see : List String → Option Json → Seen
unfolding get
see [] none = absent
see [] (some (object fs)) = dict
see [] (some v) = leaf v
see (k ∷ ks) (some (object fs)) = see ks (get k fs)
see (k ∷ ks) _ = absent

-- The second value laid over the first: where both are dicts the path is followed in both, and
-- otherwise in the second if it is there, and in the first if not.
unfoldable pub overlay : List String → Option Json → Option Json → Seen
unfolding see get
overlay path old none = see path old
overlay [] old (some v) = see [] (some v)
overlay (k ∷ ks) (some (object fs)) (some (object gs)) = overlay ks (get k fs) (get k gs)
overlay (k ∷ ks) old (some v) = see (k ∷ ks) (some v)

abbrev AreDistinct : Option Json → Type 0
AreDistinct none = Unit
AreDistinct (some v) = IsDistinct v

get-AreDistinct : (k : String) (fs : Fields) → HasDistinctKeys fs → AreDistinct (get k fs)
unfolding get
get-AreDistinct k end h = tt
get-AreDistinct k (field j v fs) h = elim (Bool-cases (str_eq j k)) [
  | inl same ↦ rw same h.1
  | inr other ↦ rw other (get-AreDistinct k fs h.2)
]

-- A value that is no dict, or has none below it, stands as it is.
merge_at-value :
    (old : Option Json) (v : Json)
    → ((fs : Fields) × (gs : Fields) × (old ≡ some (object fs)) × (v ≡ object gs))
      ⊎ ((merge_at old v ≡ v)
          × ((k : String) (ks : List String)
              → overlay (k ∷ ks) old (some v) ≡ see (k ∷ ks) (some v)))
unfolding merge_at overlay
merge_at-value (some (object fs)) (object gs) = inl (fs, gs, refl, refl)
merge_at-value (some (object fs)) null = inr (refl, λ k ks. refl)
merge_at-value (some (object fs)) (boolean b) = inr (refl, λ k ks. refl)
merge_at-value (some (object fs)) (number n) = inr (refl, λ k ks. refl)
merge_at-value (some (object fs)) (negative n) = inr (refl, λ k ks. refl)
merge_at-value (some (object fs)) (float n) = inr (refl, λ k ks. refl)
merge_at-value (some (object fs)) (text s) = inr (refl, λ k ks. refl)
merge_at-value (some (object fs)) (array vs) = inr (refl, λ k ks. refl)
merge_at-value none v = inr (refl, λ k ks. refl)
merge_at-value (some null) v = inr (refl, λ k ks. refl)
merge_at-value (some (boolean b)) v = inr (refl, λ k ks. refl)
merge_at-value (some (number n)) v = inr (refl, λ k ks. refl)
merge_at-value (some (negative n)) v = inr (refl, λ k ks. refl)
merge_at-value (some (float n)) v = inr (refl, λ k ks. refl)
merge_at-value (some (text s)) v = inr (refl, λ k ks. refl)
merge_at-value (some (array vs)) v = inr (refl, λ k ks. refl)

see-both :
    (k : String) (ks : List String) (fs gs : Fields)
    → HasDistinctKeys gs
    → see (k ∷ ks) (some (merge_at (some (object fs)) (object gs)))
      ≡ see ks (merged (get k fs) (get k gs))
unfolding see merge_at
see-both k ks fs gs h = ap (see ks) (get-merge k fs gs h)

overlay-both :
    (k : String) (ks : List String) (fs gs : Fields)
    → overlay (k ∷ ks) (some (object fs)) (some (object gs)) ≡ overlay ks (get k fs) (get k gs)
unfolding overlay
overlay-both k ks fs gs = refl

see-merged_here :
    (old : Option Json) (v : Json) → see [] (some (merge_at old v)) ≡ overlay [] old (some v)
unfolding see overlay
see-merged_here old v = elim (merge_at-value old v) [
  | inl (fs, gs, is, at) ↦ rw (is, at) (unfold merge_at in refl)
  | inr (same, there) ↦ rw same refl
]

see-merged :
    (path : List String) (old new : Option Json)
    → AreDistinct new
    → see path (merged old new) ≡ overlay path old new
unfolding merged
see-merged path old none h = unfold overlay in refl
see-merged [] old (some v) h = see-merged_here old v
see-merged (k ∷ ks) old (some v) h = elim (merge_at-value old v) [
  | inl (fs, gs, is, at) ↦
      let distinct : HasDistinctKeys gs = subst IsDistinct at h in
      rw (is, at)
        (see-both k ks fs gs distinct
          ∙ see-merged ks (get k fs) (get k gs) (get-AreDistinct k gs distinct)
          ∙ sym (overlay-both k ks fs gs))
  | inr (same, there) ↦ rw same (sym (there k ks))
]

-- At each path of keys, the merged dict has the value of the second dict laid over that of the first:
-- the path is followed as long as both have a dict, and then the second has it, or the first where the
-- second has nothing there. The second dict has no key twice, nor has a dict under its keys.
pub see-merge :
    (path : List String) (a b : Fields)
    → HasDistinctKeys b
    → see path (some (object (merge a b))) ≡ overlay path (some (object a)) (some (object b))
unfolding merged merge_at
see-merge path a b h = see-merged path (some (object a)) (some (object b)) h
