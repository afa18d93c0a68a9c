-- ===== src/SparkApi/Links.antt =====
-- `merge` and `resolve_data_ids` of spark_api.py on JSON values.
use brewblox_devcon_spark.Base.{
  ℕ, String, Bool, false, ◌==◌, Option, some, List, [], ◌∷◌, if◌then◌else◌,
}
use brewblox_devcon_spark.Base.Exn.{Result, ok, ◌>>=◌}
use brewblox_devcon_spark.Base.Codes.{codes}
use brewblox_devcon_spark.Base.Json.{
  Json, array, object, Items, nil, item, Fields, end, field, get, subscript, set_field,
}
use brewblox_devcon_spark.Bloxfield.{is_link}

-- `merge(a, b)`: `merge_at` is what becomes of one key of `b`, by the value there in `a`.
unfoldable mutual
  pub merge : Fields → Fields → Fields
  merge a end = a
  merge a (field key v b) = merge (set_field key (merge_at (get key a) v) a) b

  pub merge_at : Option Json → Json → Json
  merge_at (some (object fs)) (object gs) = object (merge fs gs)
  merge_at _ v = v

-- `str(k).endswith('>')`
ends_with_mark : List ℕ → Bool
ends_with_mark [] = false
ends_with_mark (c ∷ []) = c == b'>'
ends_with_mark (c ∷ d ∷ s) = ends_with_mark (d ∷ s)

unfoldable pub is_postfix_link : String → Bool
unfolding ends_with_mark
is_postfix_link key = ends_with_mark (codes key)

-- `v['id'] = replacer(v['id'])`
pub replace_id : (Json → Result Json) → Json → Result Json
unfolding set_field subscript
replace_id replacer (object fs) = do
  id ← subscript (object fs) "id"
  new ← replacer id
  ok (object (set_field "id" new fs))
replace_id replacer v = ok v

-- `resolve_data_ids`, over the fields of a dict and over the items of a list.
unfoldable mutual
  pub resolve_fields : (Json → Result Json) → Fields → Result Fields
  resolve_fields replacer end = ok end
  resolve_fields replacer (field k v fs) =
      let nested = resolve_value replacer v in
      (if is_link v
        then replace_id replacer v
        else if is_postfix_link k
        then replacer v
        else nested)
      >>= (λ new. resolve_fields replacer fs >>= (λ rest. ok (field k new rest)))

  pub resolve_items : (Json → Result Json) → Items → Result Items
  resolve_items replacer nil = ok nil
  resolve_items replacer (item v xs) =
      let nested = resolve_value replacer v in
      (if is_link v then replace_id replacer v else nested)
      >>= (λ new. resolve_items replacer xs >>= (λ rest. ok (item new rest)))

  pub resolve_value : (Json → Result Json) → Json → Result Json
  resolve_value replacer (object fs) = resolve_fields replacer fs >>= (λ new. ok (object new))
  resolve_value replacer (array xs) = resolve_items replacer xs >>= (λ new. ok (array new))
  resolve_value replacer v = ok v
