-- ===== src/SparkApi/Calls.antt =====
-- The methods of the API. `in_time` is as in `execute`; the discovery lock only keeps tasks apart.
use brewblox_devcon_spark.Base.{
  ℕ, String, Bool, leb, List, [], ◌∷◌, ◌++◌, Option, none, some, Text, if◌then◌else◌,
}
use brewblox_devcon_spark.Base.Exn.{Exn, Result, ok, err, key_error, index_error, attribute_error}
use brewblox_devcon_spark.Base.Dict.{Dict, insert}
use brewblox_devcon_spark.Base.Json.{end}
use brewblox_devcon_spark.Models.Config.{user_nid_start}
use brewblox_devcon_spark.Models.{FirmwareDescription, DeviceDescription, ControllerDescription}
use brewblox_devcon_spark.Models.Messages.{FirmwareBlock, ReadMode}
use brewblox_devcon_spark.Command.Methods.{Method}
use brewblox_devcon_spark.SparkApi.{Env, Api, Block}
use brewblox_devcon_spark.SparkApi.Actions.{Act, ◌>>=◌, done, lift, modify, call, execute}
use brewblox_devcon_spark.SparkApi.Blocks.{
  to_block, to_blocks, to_identities, to_firmware_block, to_firmware_block_identity,
}

only : List FirmwareBlock → Result FirmwareBlock
only [] = err index_error
only (block ∷ blocks) = ok block

or_key_error {ℓ} : {A : Type ℓ} → Option A → Result A
or_key_error none = err key_error
or_key_error (some a) = ok a

-- SYS_BLOCK_IDS of const.py, and USER_NID_START.
abbrev pub sys_block_ids : Dict ℕ
sys_block_ids =
    ("SysInfo", 2)
    ∷ ("OneWireBus", 4)
    ∷ ("WiFiSettings", 5)
    ∷ ("DisplaySettings", 7)
    ∷ ("SparkPins", 19)
    ∷ []

-- `{block.id: block.nid for block in blocks}`, for blocks with a name.
add_name : Option String → ℕ → Dict ℕ → Dict ℕ
add_name none nid names = names
add_name (some id) nid names = insert id nid names

names_of : List FirmwareBlock → Dict ℕ → Dict ℕ
unfolding add_name
names_of [] names = names
names_of (block ∷ blocks) names = names_of blocks (add_name block.id block.nid names)

-- The nid of a block in a backup; a block without one has no place in the table.
add_backup_name : Option String → Option ℕ → Dict ℕ → Dict ℕ
unfolding add_name
add_backup_name id none names = names
add_backup_name id (some nid) names = add_name id nid names

backup_names : List Block → Dict ℕ → Dict ℕ
unfolding add_backup_name
backup_names [] names = names
backup_names (block ∷ blocks) names = backup_names blocks (add_backup_name block.id block.nid names)

-- What apply_backup tells of a block that it could not load.
pub data Message : Type 0 where
  unresolved : Exn → Block → Message
  not_imported : Exn → FirmwareBlock → Message

pub record Backup : Type 0 where
  pub blocks : List Block
  pub timestamp : Text
  pub firmware : FirmwareDescription
  pub device : DeviceDescription

backup_of : List Block → Text → Option ControllerDescription → Result Backup
backup_of blocks timestamp none = err attribute_error
backup_of blocks timestamp (some controller) = ok (record {
  blocks = blocks;
  timestamp = timestamp;
  firmware = controller.firmware;
  device = controller.device;
})

module _ {S W : Type 0} (env : Env S W) (in_time : Bool) where
  -- `bidict.update`
  update : Dict ℕ → S → S
  update [] store = store
  update ((id, nid) ∷ names) store = update names (env.block_store.put id nid store)

  -- A call of the commander that gives one block, as a block of the API.
  one_block : Method → Act S W Block
  unfolding only
  one_block method = call env method >>= (λ bs. lift (only bs) >>= (λ b. to_block env b))

  unfoldable pub noop : Act S W (Unit {0})
  noop = execute in_time (call env Method.noop >>= (λ bs. done tt))

  read_with : ReadMode → Block → Act S W Block
  unfolding one_block
  read_with mode block =
      execute in_time (
        to_firmware_block_identity env block
        >>= (λ ident. one_block (Method.read_block ident mode)))

  unfoldable pub read_block : Block → Act S W Block
  unfolding read_with
  read_block = read_with ReadMode.default

  unfoldable pub read_logged_block : Block → Act S W Block
  unfolding read_with
  read_logged_block = read_with ReadMode.logged

  unfoldable pub read_stored_block : Block → Act S W Block
  unfolding read_with
  read_stored_block = read_with ReadMode.stored

  unfoldable pub write_block : Block → Act S W Block
  unfolding one_block
  write_block block =
      execute in_time (to_firmware_block env block >>= (λ b. one_block (Method.write_block b)))

  unfoldable pub patch_block : Block → Act S W Block
  unfolding one_block
  patch_block block =
      execute in_time (to_firmware_block env block >>= (λ b. one_block (Method.patch_block b)))

  or_zero : Option ℕ → Option ℕ
  or_zero none = some 0
  or_zero (some nid) = some nid

  unfoldable pub create_block : Block → Act S W Block
  unfolding one_block or_zero
  create_block block = execute in_time (
      to_firmware_block env (record block { nid = or_zero block.nid })
      >>= (λ b. one_block (Method.create_block b)))

  unfoldable pub delete_block : Block → Act S W Block
  unfolding or_key_error
  delete_block block = execute in_time (do
    ident ← to_firmware_block_identity env block
    blocks ← call env (Method.delete_block ident)
    sid ← λ s. (or_key_error (env.block_store.inverse s.store ident.nid), s)
    u ← modify (env.block_store.delete sid)
    done (record {
      id = some sid;
      nid = some ident.nid;
      type = ident.type;
      service = some env.service_id;
      content = none;
    }))

  read_all_with : Method → Act S W (List Block)
  read_all_with method = execute in_time (call env method >>= (λ blocks. to_blocks env blocks))

  unfoldable pub read_all_blocks : Act S W (List Block)
  unfolding read_all_with
  read_all_blocks = read_all_with (Method.read_all_blocks ReadMode.default)

  unfoldable pub read_all_logged_blocks : Act S W (List Block)
  unfolding read_all_with
  read_all_logged_blocks = read_all_with (Method.read_all_blocks ReadMode.logged)

  unfoldable pub read_all_stored_blocks : Act S W (List Block)
  unfolding read_all_with
  read_all_stored_blocks = read_all_with (Method.read_all_blocks ReadMode.stored)

  unfoldable pub discover_blocks : Act S W (List Block)
  unfolding read_all_with
  discover_blocks = read_all_with Method.discover_blocks

  unfoldable pub load_block_names : Act S W (Unit {0})
  unfolding update names_of
  load_block_names = do
    blocks ← call env Method.read_all_block_names
    modify (λ store. update (names_of blocks []) (env.block_store.clear store))

  unfoldable pub clear_blocks : Act S W (List Block)
  unfolding load_block_names
  clear_blocks = execute in_time (do
    blocks ← call env Method.clear_blocks
    identities ← to_identities env blocks
    u ← load_block_names
    written ← call env (
        Method.write_block
          (record { id = none; nid = 7; type = some "DisplaySettings"; content = some end }))
    done identities)

  put_named : Option String → ℕ → S → S
  put_named none nid store = store
  put_named (some id) nid store = env.block_store.put id nid store

  -- `self.block_store[change.existing]`
  unfoldable pub nid_named : String → Act S W ℕ
  unfolding or_key_error
  nid_named existing s = (or_key_error (env.block_store.get s.store existing), s)

  unfoldable pub write_name : String → ℕ → Act S W (List FirmwareBlock)
  write_name desired nid = call env (
      Method.write_block_name
        (record { id = some desired; nid = nid; type = none; content = none }))

  unfoldable pub store_name : List FirmwareBlock → Act S W Block
  unfolding only put_named
  store_name blocks = do
    block ← lift (only blocks)
    u ← modify (put_named block.id block.nid)
    done (record {
      id = block.id;
      nid = some block.nid;
      type = block.type;
      service = some env.service_id;
      content = none;
    })

  unfoldable pub rename_block : String → String → Act S W Block
  unfolding nid_named write_name store_name
  rename_block existing desired =
      nid_named existing >>= (λ nid. write_name desired nid >>= (λ blocks. store_name blocks))

  unfoldable pub make_backup : Text → Act S W Backup
  unfolding backup_of read_all_stored_blocks
  make_backup timestamp = do
    blocks ← read_all_stored_blocks
    λ s. (backup_of blocks timestamp s.state.controller, s)

  -- The outcome of one block, with those of the others.
  add_resolved :
      Block
      → Result FirmwareBlock
      → List FirmwareBlock × List Message
      → List FirmwareBlock × List Message
  add_resolved block (ok b) (bs, ms) = (b ∷ bs, ms)
  add_resolved block (err e) (bs, ms) = (bs, unresolved e block ∷ ms)

  -- Each block that resolves, and the errors of those that do not.
  resolve_all : List Block → Api S W → (List FirmwareBlock × List Message) × Api S W
  unfolding add_resolved
  resolve_all [] s = (([], []), s)
  resolve_all (block ∷ blocks) s =
      let (first, s') = to_firmware_block env block s in
      let (rest, s'') = resolve_all blocks s' in (add_resolved block first rest, s'')

  import_method : FirmwareBlock → Method
  import_method block =
      if leb user_nid_start block.nid then Method.create_block block else Method.write_block block

  add_failed : FirmwareBlock → Result (List FirmwareBlock) → List Message → List Message
  add_failed block (ok blocks) ms = ms
  add_failed block (err e) ms = not_imported e block ∷ ms

  -- Blocks are created, or written where they are system blocks; errors do not stop the loop.
  import_all : List FirmwareBlock → Api S W → List Message × Api S W
  unfolding import_method add_failed
  import_all [] s = ([], s)
  import_all (block ∷ blocks) s =
      let (first, s') = call env (import_method block) s in
      let (rest, s'') = import_all blocks s' in (add_failed block first rest, s'')

  unfoldable pub apply_backup : List Block → Act S W (List Message)
  unfolding resolve_all import_all clear_blocks load_block_names update backup_names
  apply_backup exported = do
    cleared ← clear_blocks
    u ← modify (λ store. update (backup_names exported []) (update sys_block_ids store))
    resolved ← λ s. let (r, s') = resolve_all exported s in (ok r, s')
    failed ← λ s. let (r, s') = import_all resolved.0 s in (ok r, s')
    discovered ← call env Method.discover_blocks
    v ← load_block_names
    done (resolved.1 ++ failed)

  unfoldable pub clear_wifi : Act S W (Unit {0})
  clear_wifi = execute in_time (call env Method.clear_wifi >>= (λ bs. done tt))

  -- The block is checked by encoding it, under the nid 0 and no name, and given back under its own.
  unfoldable pub validate : Block → Act S W Block
  validate block = execute in_time (do
    given ← to_firmware_block env (record block { id = none; nid = some 0 })
    checked ← λ s. let (r, w) = env.validate given s.world in (r, record s { world = w })
    shown ← to_block env checked
    done (record shown { id = block.id; nid = block.nid }))

  unfoldable pub factory_reset : Act S W (Unit {0})
  factory_reset = execute in_time (call env Method.factory_reset >>= (λ bs. done tt))

  unfoldable pub reboot : Act S W (Unit {0})
  reboot = execute in_time (call env Method.reboot >>= (λ bs. done tt))
