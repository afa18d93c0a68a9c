-- ===== src/BlockAnalysis/Relations.antt =====
-- `calculate_relations` of block_analysis.py
pub mod Marks
use Prim.Native.String.{◌++◌ as join}
use brewblox_devcon_spark.Base.{
  ℕ, zero, suc, ◌+◌, ◌/◌, ◌%◌, String, Bool, true, false, ◌&&◌, List, [], ◌∷◌, ◌++◌, ltb, str_eq,
  if◌then◌else◌,
}
use brewblox_devcon_spark.Base.Exn.{Result, ok, ◌>>=◌}
use brewblox_devcon_spark.Base.Dict.{elem}
use brewblox_devcon_spark.Base.Json.{
  Json, array, object, Items, nil, item, Fields, end, field, truthy, get_or_null, subscript,
  as_text,
}
use brewblox_devcon_spark.Bloxfield.{is_bloxfield, is_defined_link}
use brewblox_devcon_spark.BlockAnalysis.{
  Block, BlockRelation, ignored_relation_types, ignored_relation_fields, inverted_relation_fields,
}

-- `str(n)`: the digits of a number below 10 ^ fuel.
digit : ℕ → String
digit zero = "0"
digit (suc zero) = "1"
digit (suc (suc zero)) = "2"
digit (suc (suc (suc zero))) = "3"
digit (suc (suc (suc (suc zero)))) = "4"
digit (suc (suc (suc (suc (suc zero))))) = "5"
digit (suc (suc (suc (suc (suc (suc zero)))))) = "6"
digit (suc (suc (suc (suc (suc (suc (suc zero))))))) = "7"
digit (suc (suc (suc (suc (suc (suc (suc (suc zero)))))))) = "8"
digit _ = "9"

decimal : ℕ → ℕ → String
unfolding digit
decimal zero n = ""
decimal (suc fuel) n =
    let front = decimal fuel (n / 10) in if ltb n 10 then digit n else join front (digit (n % 10))

pub str : ℕ → String
unfolding decimal
str n = decimal (suc n) n

last_in : List String → List String → Bool
unfolding elem
last_in [] names = false
last_in (x ∷ []) names = elem x names
last_in (x ∷ y ∷ path) names = last_in (y ∷ path) names

first_in : List String → List String → Bool
unfolding elem
first_in [] names = false
first_in (x ∷ path) names = elem x names

-- The relation of a defined link.
link_relation : String → List String → Json → Result (List BlockRelation)
unfolding first_in subscript as_text
link_relation parent_id relation v = do
  id ← subscript v "id"
  target ← as_text id
  ok (
      record {
        source = if first_in relation inverted_relation_fields then target else parent_id;
        target = if first_in relation inverted_relation_fields then parent_id else target;
        claimed = false;
        relation = relation;
      }
      ∷ [])

-- `_find_nested_relations`, `find_in_fields` and `find_in_items` its two loops.
mutual
  pub find_nested_relations : String → List String → Json → Result (List BlockRelation)
  find_nested_relations parent_id relation (object fs) =
      let link = link_relation parent_id relation (object fs) in
      let nested = find_in_fields parent_id relation fs in
      if last_in relation ignored_relation_fields
      then ok []
      else if is_defined_link (object fs)
      then link
      else if is_bloxfield (object fs)
      then ok []
      else nested
  find_nested_relations parent_id relation (array xs) =
      let nested = find_in_items parent_id relation 0 xs in
      if last_in relation ignored_relation_fields then ok [] else nested
  find_nested_relations parent_id relation _ = ok []

  pub find_in_fields : String → List String → Fields → Result (List BlockRelation)
  find_in_fields parent_id relation end = ok []
  find_in_fields parent_id relation (field key value fs) = do
    output ← find_nested_relations parent_id (relation ++ key ∷ []) value
    more ← find_in_fields parent_id relation fs
    ok (output ++ more)

  pub find_in_items : String → List String → ℕ → Items → Result (List BlockRelation)
  find_in_items parent_id relation idx nil = ok []
  find_in_items parent_id relation idx (item value xs) = do
    output ← find_nested_relations parent_id (relation ++ str idx ∷ []) value
    more ← find_in_items parent_id relation (idx + 1) xs
    ok (output ++ more)

-- The first loop of `calculate_relations`.
pub collect : List Block → Result (List BlockRelation)
unfolding elem
collect [] = ok []
collect (block ∷ blocks) =
    let more = collect blocks in
    if elem block.type ignored_relation_types
    then more
    else find_nested_relations block.id [] (object block.content)
      >>= (λ found. more >>= (λ rest. ok (found ++ rest)))

-- `r.claimed = True` for the first relation with this target and source.
pub mark : String → String → List BlockRelation → List BlockRelation
mark target source [] = []
mark target source (r ∷ rs) =
    if str_eq r.target target && str_eq r.source source
    then record r { claimed = true } ∷ rs
    else r ∷ mark target source rs

-- A comparison with a value that is no text is false for every relation.
mark_by : String → Json → List BlockRelation → List BlockRelation
unfolding mark
mark_by target (Json.text source) rs = mark target source rs
mark_by target _ rs = rs

-- The second loop.
mark_claims : List Block → List BlockRelation → Result (List BlockRelation)
unfolding mark_by get_or_null truthy subscript
mark_claims [] rs = ok rs
mark_claims (block ∷ blocks) rs =
    let raw_claim = get_or_null "claimedBy" block.content in
    let go_on = mark_claims blocks rs in
    if truthy raw_claim
    then subscript raw_claim "id" >>= (λ source.
      let marked = mark_claims blocks (mark_by block.id source rs) in
      if truthy source then marked else go_on)
    else go_on

pub calculate_relations : List Block → Result (List BlockRelation)
unfolding collect mark_claims
calculate_relations blocks = do relations ← collect blocks; mark_claims blocks relations
