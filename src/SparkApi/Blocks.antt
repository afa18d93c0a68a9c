-- ===== src/SparkApi/Blocks.antt =====
-- Block IDs: the conversions between the blocks of the API and those of the commander.
use Prim.Native.String.{◌++◌}
use brewblox_devcon_spark.Base.{
  ℕ, zero, suc, ◌*◌, ◌+◌, ◌-◌, String, Bool, true, false, not, ◌&&◌, ◌||◌, ◌^◌, ◌==◌, leb, str_eq,
  List, [], ◌∷◌, Option, none, some, Text, if◌then◌else◌,
}
use brewblox_devcon_spark.Base.Exn.{
  Result, ok, err, unknown_id, decode_exception, type_error, attribute_error,
}
use brewblox_devcon_spark.Base.Codes.{codes}
use brewblox_devcon_spark.Base.Json.{
  Json, null, boolean, number, negative, float, text, Fields, end,
}
use brewblox_devcon_spark.Models.Messages.{FirmwareBlock}
use brewblox_devcon_spark.BlockAnalysis.Relations.{str}
use brewblox_devcon_spark.SparkApi.{Env, Block}
use brewblox_devcon_spark.SparkApi.Links.{resolve_fields}
use brewblox_devcon_spark.SparkApi.Actions.{Act, ◌>>=◌, done, lift, modify}

-- `int(sid)` where `sid.isdigit()`, for ASCII digits.
digits : Text → Bool → ℕ → Option ℕ
digits [] some_digit n = if some_digit then some n else none
digits (c ∷ s) some_digit n =
    let more = digits s true (n * 10 + (c - b'0')) in
    if leb b'0' c && leb c b'9' then more else none

number_of : Bool → ℕ
number_of true = 1
number_of false = 0

known : Option ℕ → Result Json
known none = err unknown_id
known (some nid) = ok (number nid)

or_known : Option ℕ → Option ℕ → Result Json
or_known none stored = known stored
or_known (some n) stored = ok (number n)

named : Option String → ℕ → Json
named none nid = text (str nid)
named (some sid) nid = text sid

named_or : String → Option String → Json
named_or shown none = text shown
named_or shown (some sid) = text sid

module _ {S W : Type 0} (env : Env S W) where
  pub find_nid : S → Json → Result Json
  unfolding digits or_known number_of
  find_nid store null = ok (number 0)
  find_nid store (boolean b) = ok (number (number_of b))
  find_nid store (number n) = ok (number n)
  find_nid store (negative n) = ok (negative n)
  find_nid store (text sid) = or_known (digits (codes sid) false 0) (env.block_store.get store sid)
  find_nid store _ = err attribute_error

  -- None stands for no block, as does every zero. `True` is the key 1 of the table, and no negative
  -- number is a key. The text of a float is not modelled.
  pub find_sid : S → Json → Result Json
  unfolding named named_or
  find_sid store null = ok null
  find_sid store (boolean false) = ok null
  find_sid store (boolean true) = ok (named_or "True" (env.block_store.inverse store 1))
  find_sid store (negative n) = ok (text ("-" ++ str (suc n)))
  find_sid store (float bits) = if bits == 0 || bits == 2 ^ 63 then ok null else err type_error
  find_sid store (number zero) = ok null
  find_sid store (number (suc n)) = ok (named (env.block_store.inverse store (suc n)) (suc n))
  find_sid store (text t) = err decode_exception
  find_sid store _ = err type_error

  sid_of : Option String → ℕ → Option String
  sid_of (some sid) nid = some sid
  sid_of none nid = some (str nid)

  -- `block.id or self._find_sid(block.nid)`
  unfoldable pub id_or_sid : Option String → S → ℕ → Option String
  unfolding sid_of
  id_or_sid none store zero = none
  id_or_sid none store (suc n) = sid_of (env.block_store.inverse store (suc n)) (suc n)
  id_or_sid (some id) store nid =
      if str_eq id ""
      then (if nid == 0 then none else sid_of (env.block_store.inverse store nid) nid)
      else some id

  -- Neither the ID is empty nor the number 0.
  unfoldable pub synced : Option String → ℕ → S → S
  synced none nid store = store
  synced (some id) nid store =
      if not (str_eq id "") && not (nid == 0) then env.block_store.put id nid store else store

  unfoldable pub sync_block_id : FirmwareBlock → Act S W (Unit {0})
  unfolding synced
  sync_block_id block = modify (synced block.id block.nid)

  unfoldable pub identity_in : FirmwareBlock → S → Block
  unfolding id_or_sid
  identity_in block store = record {
    id = id_or_sid block.id store block.nid;
    nid = some block.nid;
    type = block.type;
    service = some env.service_id;
    content = none;
  }

  unfoldable pub to_block_identity : FirmwareBlock → Act S W Block
  unfolding identity_in sync_block_id
  to_block_identity block = sync_block_id block >>= (λ u s. (ok (identity_in block s.store), s))

  is_sequence : Option String → Bool
  is_sequence none = false
  is_sequence (some type) = str_eq type "Sequence"

  unfoldable pub or_end : Option Fields → Fields
  or_end none = end
  or_end (some fs) = fs

  unfoldable pub serialized : Block → Fields → Result Fields
  unfolding is_sequence
  serialized ident fs = if is_sequence ident.type then env.sequence_serialize fs else ok fs

  unfoldable pub to_block : FirmwareBlock → Act S W Block
  unfolding to_block_identity serialized or_end
  to_block block = do
    u ← sync_block_id block
    ident ← to_block_identity block
    fs ← λ s. (resolve_fields (find_sid s.store) (or_end block.content), s)
    content ← lift (serialized ident fs)
    done (record ident { content = some content })

  -- `[self._to_block(block) for block in blocks]`
  unfoldable pub to_blocks : List FirmwareBlock → Act S W (List Block)
  unfolding to_block
  to_blocks [] = done []
  to_blocks (block ∷ blocks) = do
    first ← to_block block
    rest ← to_blocks blocks
    done (first ∷ rest)

  unfoldable pub to_identities : List FirmwareBlock → Act S W (List Block)
  unfolding to_block_identity
  to_identities [] = done []
  to_identities (block ∷ blocks) = do
    first ← to_block_identity block
    rest ← to_identities blocks
    done (first ∷ rest)

  stored_nid : Option ℕ → Result ℕ
  stored_nid none = err unknown_id
  stored_nid (some nid) = ok nid

  -- A missing ID is no key of the table.
  get_nid : S → Option String → Option ℕ
  get_nid store none = none
  get_nid store (some id) = env.block_store.get store id

  nid_of : Option ℕ → Option String → S → Result ℕ
  unfolding stored_nid get_nid
  nid_of (some nid) id store = ok nid
  nid_of none id store = stored_nid (get_nid store id)

  unfoldable pub to_firmware_block_identity : Block → Act S W FirmwareBlock
  unfolding nid_of
  to_firmware_block_identity block = do
    nid ← λ s. (nid_of block.nid block.id s.store, s)
    done (record { id = block.id; nid = nid; type = block.type; content = none })

  parsed : Option String → Fields → Result Fields
  unfolding is_sequence
  parsed type fs = if is_sequence type then env.sequence_parse fs else ok fs

  unfoldable pub to_firmware_block : Block → Act S W FirmwareBlock
  unfolding to_firmware_block_identity parsed or_end
  to_firmware_block block = do
    ident ← to_firmware_block_identity block
    fs ← lift (parsed ident.type (or_end block.content))
    content ← λ s. (resolve_fields (find_nid s.store) fs, s)
    done (record ident { content = some content })
