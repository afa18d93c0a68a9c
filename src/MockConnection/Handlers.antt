-- ===== src/MockConnection/Handlers.antt =====
-- connection/mock_connection.py: `handle_command` and `send_request`.
pub mod Stays
pub mod Replies
pub mod Refusals
pub mod SystemBlocks
use brewblox_devcon_spark.Base.{
  ℕ, suc, Bool, true, false, not, ◌&&◌, List, [], ◌∷◌, ◌++◌, Option, none, some, String, Text, ltb,
  leb, ◌==◌, if◌then◌else◌,
}
use brewblox_devcon_spark.Base.Exn.{Exn, Result, ok, err, ◌>>=◌, value_error, attribute_error}
use brewblox_devcon_spark.Base.Table.{Table, find, put, remove}
use brewblox_devcon_spark.Base.Json.{Json, Fields, end, set_field}
use brewblox_devcon_spark.Models.Messages.{
  EncodedPayload, DecodedPayload, MaskMode, ReadMode, Opcode, ErrorCode, IntermediateRequest,
  IntermediateResponse,
}
use brewblox_devcon_spark.Command.{Codec}
use brewblox_devcon_spark.Models.Config.{user_nid_start}
use brewblox_devcon_spark.MockConnection.{
  MockConnection, Block, Step, Reply, Clock, ◌then◌, done, lift, refuse, block_at, put_block,
  default_blocks, merge_blocks, update_block, user_blocks, all_blocks, named, is_taken, has_name,
  is_type_name,
}

-- A block of a payload: without a type or data it is refused.
block_of : DecodedPayload → Option String → Option Fields → Result Block
block_of p (some type) (some fs) =
    ok (record { id = p.name; nid = p.block_id; type = type; content = fs })
block_of p _ _ = err value_error

to_decoded : ℕ → String → Option String → Fields → DecodedPayload
to_decoded nid type name fs = record {
  block_id = nid;
  block_type = some type;
  name = name;
  content = some fs;
  mask_mode = MaskMode.no_mask;
  mask_fields = [];
}

module _ (codec : Codec) (clock : Clock) (welcome : Text) where
  unfoldable pub to_payload : Block → Result EncodedPayload
  unfolding to_decoded
  to_payload b = codec.encode_payload (to_decoded b.nid b.type b.id b.content)

  unfoldable pub to_block : EncodedPayload → Result Block
  unfolding block_of
  to_block p = codec.decode_payload p ReadMode.default >>= (λ d. block_of d d.block_type d.content)

  unfoldable pub default_block : Option String → ℕ → String → Result Block
  unfolding to_block to_decoded
  default_block name nid type = codec.encode_payload (to_decoded nid type name end) >>= to_block

  to_payloads : List Block → Result (List EncodedPayload)
  unfolding to_payload
  to_payloads [] = ok []
  to_payloads (b ∷ bs) = to_payload b >>= (λ p. to_payloads bs >>= (λ ps. ok (p ∷ ps)))

  -- `response.payload = [...]`
  reply_with : List Block → Step Reply
  unfolding to_payloads
  reply_with bs = lift (to_payloads bs >>= (λ ps. ok (ErrorCode.ok, ps)))

  unfoldable pub update_systime : ℕ → Step (Unit {0})
  unfolding update_block block_at set_field
  update_systime now c =
      update_block
        (λ fs.
          set_field "systemTime" (clock.system_time c.start_time now)
            (set_field "uptime" (clock.uptime c.start_time now) fs))
        (block_at 2 c) 2 c

  -- `self._blocks.get(nid)`, with the error for a missing block.
  with_block : ℕ → (Block → Step Reply) → Step Reply
  unfolding find
  with_block nid f c = elim (find nid c.blocks) [
    | none ↦ refuse ErrorCode.invalid_block_id c
    | some b ↦ f b c
  ]

  with_payload : Option EncodedPayload → (EncodedPayload → Step Reply) → Step Reply
  with_payload none f = lift (err attribute_error)
  with_payload (some p) f = f p

  read : ℕ → Step Reply
  unfolding with_block reply_with
  read nid = with_block nid (λ b. reply_with (b ∷ []))

  read_all : Step Reply
  unfolding reply_with all_blocks
  read_all c = reply_with (all_blocks c.blocks) c

  -- The merge of a block in the table.
  merge_in : ℕ → Block → Block → Step Block
  unfolding merge_blocks put_block
  merge_in nid b src c =
      let (r, merged) = merge_blocks b src in (r >>= (λ _. ok merged), put_block nid merged c)

  -- The content of a payload is a text, never None.
  write : EncodedPayload → Step Reply
  unfolding with_block is_type_name to_block merge_in reply_with
  write p = with_block p.block_id (λ b.
      if is_type_name p.block_type b.type
      then lift (to_block p)
      then (λ src. merge_in p.block_id b src then (λ merged. reply_with (merged ∷ [])))
      else refuse ErrorCode.invalid_block_type)

  -- `nid or next(self._id_counter)`
  new_nid : ℕ → Step ℕ
  new_nid nid c =
      if nid == 0
      then (ok c.id_counter, record c { id_counter = suc c.id_counter })
      else (ok nid, c)

  store : ℕ → Block → Step (Unit {0})
  unfolding put_block
  store nid b c = (ok tt, put_block nid b c)

  insert : ℕ → EncodedPayload → Step Reply
  unfolding to_block default_block merge_blocks store reply_with
  insert nid p = lift (to_block p) then (λ argblock.
      lift (
        default_block p.name nid argblock.type
        >>= (λ b. let (r, merged) = merge_blocks b argblock in r >>= (λ _. ok merged)))
      then (λ b. store nid b then (λ _. reply_with (b ∷ []))))

  -- By the block that has the number already.
  create_at : Option Block → EncodedPayload → Step Reply
  unfolding new_nid insert
  create_at (some b) p = refuse ErrorCode.block_not_creatable
  create_at none p =
      if not (p.block_id == 0) && ltb p.block_id user_nid_start
      then refuse ErrorCode.block_not_creatable
      else new_nid p.block_id then (λ nid. insert nid p)

  create : EncodedPayload → Step Reply
  unfolding find create_at
  create p c = create_at (find p.block_id c.blocks) p c

  delete : ℕ → Step Reply
  unfolding with_block remove
  delete nid = with_block nid (λ b.
      if ltb nid user_nid_start then refuse ErrorCode.block_not_deletable else λ c.
      (ok (ErrorCode.ok, []), record c { blocks = remove nid c.blocks }))

  discover : Step Reply
  unfolding block_at reply_with
  discover c = (lift (block_at 19 c) then (λ b. reply_with (b ∷ []))) c

  rename : EncodedPayload → Step Reply
  unfolding with_block has_name is_taken named store reply_with
  rename p c =
      with_block p.block_id
        (λ b.
          if not (has_name p.name)
          then refuse ErrorCode.invalid_block_name
          else if is_taken (named p.name c.blocks) p.block_id
          then refuse ErrorCode.invalid_block_name
          else store p.block_id (record b { id = p.name })
            then (λ _. reply_with (record b { id = p.name } ∷ [])))
        c

  accepted : Step Reply
  accepted = done (ErrorCode.ok, [])

  reboot : ℕ → Step Reply
  unfolding update_systime accepted
  reboot now c = (update_systime now then (λ _. accepted)) (record c { start_time = now })

  reset_blocks : ℕ → Step (Unit {0})
  unfolding update_systime default_blocks
  reset_blocks now c = update_systime now (record c { blocks = default_blocks })

  clear_blocks : ℕ → Step Reply
  unfolding reply_with user_blocks reset_blocks
  clear_blocks now c =
      (reply_with (user_blocks c.blocks) then (λ r. reset_blocks now then (λ _. done r))) c

  clear_wifi : Step Reply
  unfolding update_block block_at accepted
  clear_wifi c = (update_block (λ fs. end) (block_at 5 c) 5 then (λ _. accepted)) c

  factory_reset : ℕ → Step Reply
  unfolding reset_blocks accepted
  factory_reset now = reset_blocks now then (λ _. accepted)

  greet : Step Reply
  unfolding accepted
  greet c = accepted (record c { events = c.events ++ welcome ∷ [] })

  -- The branches on the opcode.
  unfoldable pub dispatch : Opcode → Option EncodedPayload → ℕ → Step Reply
  unfolding greet read read_all write create delete discover rename reboot clear_blocks clear_wifi
      factory_reset accepted with_payload
  dispatch Opcode.none p now = greet
  dispatch Opcode.version p now = greet
  dispatch Opcode.block_read p now = with_payload p (λ q. read q.block_id)
  dispatch Opcode.storage_read p now = with_payload p (λ q. read q.block_id)
  dispatch Opcode.name_read p now = with_payload p (λ q. read q.block_id)
  dispatch Opcode.block_read_all p now = read_all
  dispatch Opcode.storage_read_all p now = read_all
  dispatch Opcode.name_read_all p now = read_all
  dispatch Opcode.block_write p now = with_payload p write
  dispatch Opcode.block_create p now = with_payload p create
  dispatch Opcode.block_delete p now = with_payload p (λ q. delete q.block_id)
  dispatch Opcode.block_discover p now = discover
  dispatch Opcode.name_write p now = with_payload p rename
  dispatch Opcode.reboot p now = reboot now
  dispatch Opcode.clear_blocks p now = clear_blocks now
  dispatch Opcode.clear_wifi p now = clear_wifi
  dispatch Opcode.factory_reset p now = factory_reset now
  dispatch Opcode.firmware_update p now = accepted

  respond : IntermediateRequest → Reply → IntermediateResponse
  respond request (error, payload) = record {
    msg_id = request.msg_id;
    error = error;
    mode = request.mode;
    payload = payload;
  }

  unfoldable pub handle_errors :
      List (Option ErrorCode) → IntermediateRequest → ℕ → Step (Option IntermediateResponse)
  unfolding dispatch respond
  handle_errors [] request now c =
      (dispatch request.opcode request.payload now then (λ r. done (some (respond request r)))) c
  handle_errors (none ∷ errors) request now c = (ok none, record c { next_error = errors })
  handle_errors (some error ∷ errors) request now c =
      (ok (some (respond request (error, []))), record c { next_error = errors })

  unfoldable pub handle_command : IntermediateRequest → ℕ → Step (Option IntermediateResponse)
  unfolding handle_errors
  handle_command request now c = handle_errors c.next_error request now c

  -- `send_request` behind `decode_request`, up to the response that is encoded.
  unfoldable pub send_request : IntermediateRequest → ℕ → Step (Option IntermediateResponse)
  unfolding update_systime handle_command
  send_request request now = update_systime now then (λ _. handle_command request now)

  -- Requests one after another, each with its time.
  unfoldable pub run : List (IntermediateRequest × ℕ) → MockConnection → MockConnection
  unfolding send_request
  run [] c = c
  run ((request, now) ∷ requests) c = run requests (send_request request now c).1
