-- ===== src/Codec/Lookup.antt =====
-- codec/lookup.py: the tables from block types to messages. A message class is given by its
-- descriptor, and the enum `BlockType` and the messages of the generated modules are parameters.
use brewblox_devcon_spark.Base.{
  ℕ, Bool, false, List, [], ◌∷◌, ◌++◌, Option, none, some, String, map, leb, ◌==◌, str_eq,
  if◌then◌else◌,
}
use brewblox_devcon_spark.Base.Exn.{Result, ok, ◌>>=◌}
use brewblox_devcon_spark.Models.Messages.{BlockTypeRef, type_int, type_str}
use brewblox_devcon_spark.Codec.Libraries.{Protobuf}
use brewblox_devcon_spark.Codec.Values.{is_set}

-- `BlockType` and the message types of the modules of pb2, each with the `objtype` of its options.
-- The names of the enum are `type_name` of the descriptors.
pub record Messages (P : Protobuf) : Type 0 where
  pub value : String → Option ℕ
  pub block_types : List ℕ
  pub message_types : List (ℕ × P.Descriptor)
  pub edge_case : P.Descriptor

pub record InterfaceLookup : Type 0 where
  pub type_str : String
  pub type_int : ℕ

pub record ObjectLookup (P : Protobuf) : Type 0 where
  pub type_str : String
  pub type_int : ℕ
  pub message_cls : P.Descriptor

abbrev block_interface_type_end : ℕ
block_interface_type_end = 255

-- The three tables.
pub record Tables (P : Protobuf) : Type 0 where
  pub objects : List (ObjectLookup P)
  pub interfaces : List InterfaceLookup
  pub combined : List InterfaceLookup

module _ (P : Protobuf) where
  interface_lookups : List ℕ → Result (List InterfaceLookup)
  interface_lookups [] = ok []
  interface_lookups (t ∷ types) =
      let rest = interface_lookups types in
      if leb t block_interface_type_end
      then P.type_name t >>= (λ s. rest >>= (λ ls. ok (record { type_str = s; type_int = t } ∷ ls)))
      else rest

  object_lookups : List (ℕ × P.Descriptor) → Result (List (ObjectLookup P))
  object_lookups [] = ok []
  object_lookups ((t, desc) ∷ messages) =
      let rest = object_lookups messages in
      if is_set t
      then P.type_name t >>= (λ s.
        rest >>= (λ ls. ok (record { type_str = s; type_int = t; message_cls = desc } ∷ ls)))
      else rest

  as_interface : ObjectLookup P → InterfaceLookup
  as_interface l = record { type_str = l.type_str; type_int = l.type_int }

  unfoldable pub setup : Messages P → Result (Tables P)
  unfolding interface_lookups object_lookups as_interface
  setup M = object_lookups (M.message_types) >>= (λ objs.
      interface_lookups (M.block_types) >>= (λ intfs.
        let objects : List (ObjectLookup P) =
          objs
          ++ record { type_str = "EdgeCase"; type_int = 9001; message_cls = M.edge_case } ∷ [] in
        let interfaces : List InterfaceLookup =
          intfs ++ record { type_str = "EdgeCase"; type_int = 9001 } ∷ [] in
        ok (record {
          objects = objects;
          interfaces = interfaces;
          combined = map as_interface objects ++ interfaces;
        })))

-- `next((v for v in table if v.type_int == value))`
unfoldable pub object_of_value :
    (P : Protobuf) → ℕ → List (ObjectLookup P) → Option (ObjectLookup P)
object_of_value P n [] = none
object_of_value P n (l ∷ ls) = if l.type_int == n then some l else object_of_value P n ls

unfoldable pub interface_of_value : ℕ → List InterfaceLookup → Option InterfaceLookup
interface_of_value n [] = none
interface_of_value n (l ∷ ls) = if l.type_int == n then some l else interface_of_value n ls

-- `block_type in [type_str, type_int]`
unfoldable pub is_type : String → ℕ → Option BlockTypeRef → Bool
is_type s n none = false
is_type s n (some (type_int m)) = m == n
is_type s n (some (type_str t)) = str_eq t s

unfoldable pub object_of_type :
    (P : Protobuf) → Option BlockTypeRef → List (ObjectLookup P) → Option (ObjectLookup P)
unfolding is_type
object_of_type P r [] = none
object_of_type P r (l ∷ ls) =
    if is_type l.type_str l.type_int r then some l else object_of_type P r ls

unfoldable pub interface_of_type :
    Option BlockTypeRef → List InterfaceLookup → Option InterfaceLookup
unfolding is_type
interface_of_type r [] = none
interface_of_type r (l ∷ ls) =
    if is_type l.type_str l.type_int r then some l else interface_of_type r ls
