-- ===== src/Command/Methods.antt =====
-- The methods of command.py: the request that each one makes, and what it makes of the payloads.
use brewblox_devcon_spark.Base.{true, false, Bool, List, [], ◌∷◌, Option, none, some, if◌then◌else◌}
use brewblox_devcon_spark.Base.Exn.{Result, ok, err, value_error, index_error, ◌>>=◌}
use brewblox_devcon_spark.Base.Json.{Fields, end}
use brewblox_devcon_spark.Models.Messages.{
  Opcode, ReadMode, MaskMode, EncodedPayload, DecodedPayload, FirmwareBlock,
}
use brewblox_devcon_spark.Base.{String, not, str_eq}
use brewblox_devcon_spark.Command.{Codec}

-- The truth of an optional text.
has_type : Option String → Bool
has_type none = false
has_type (some t) = not (str_eq t "")

to_payload : Codec → FirmwareBlock → Bool → Bool → Result EncodedPayload
unfolding has_type
to_payload codec block identity_only patch = codec.encode_payload (
    if has_type block.type
    then record {
      block_id = block.nid;
      block_type = block.type;
      name = block.id;
      content = if identity_only then none else block.content;
      mask_mode = if patch then MaskMode.inclusive else MaskMode.no_mask;
      mask_fields = [];
    }
    else record {
      block_id = block.nid;
      block_type = none;
      name = block.id;
      content = none;
      mask_mode = MaskMode.no_mask;
      mask_fields = [];
    })

or_empty : Option Fields → Fields
or_empty none = end
or_empty (some fs) = fs

-- The type of a block is required.
validated : DecodedPayload → Result FirmwareBlock
unfolding or_empty
validated payload = elim payload.block_type [
  | none ↦ err value_error
  | some type ↦ ok (record {
    id = payload.name;
    nid = payload.block_id;
    type = some type;
    content = some (or_empty payload.content);
  })
]

to_block : Codec → ReadMode → EncodedPayload → Result FirmwareBlock
unfolding validated
to_block codec mode payload = codec.decode_payload payload mode >>= validated

-- `[self._to_block(v, mode=mode) for v in payloads]`
to_blocks : Codec → ReadMode → List EncodedPayload → Result (List FirmwareBlock)
unfolding to_block
to_blocks codec mode [] = ok []
to_blocks codec mode (v ∷ payloads) = do
  block ← to_block codec mode v
  blocks ← to_blocks codec mode payloads
  ok (block ∷ blocks)

-- `self._to_block(payloads[0], mode=mode)`
to_first : Codec → ReadMode → List EncodedPayload → Result (List FirmwareBlock)
unfolding to_block
to_first codec mode [] = err index_error
to_first codec mode (v ∷ payloads) = to_block codec mode v >>= (λ block. ok (block ∷ []))

pub data Method : Type 0 where
  noop version : Method
  read_block : FirmwareBlock → ReadMode → Method
  read_all_blocks : ReadMode → Method
  write_block patch_block create_block delete_block : FirmwareBlock → Method
  discover_blocks read_all_block_names : Method
  write_block_name : FirmwareBlock → Method
  reboot clear_blocks clear_wifi factory_reset firmware_update : Method

-- `validate`: the request is encoded and not sent.
pub validate : Codec → FirmwareBlock → Result FirmwareBlock
unfolding to_payload
validate codec block = do
  payload ← to_payload codec block false false
  encoded ←
      codec.encode_request (record {
        msg_id = 0;
        opcode = Opcode.none;
        mode = ReadMode.default;
        payload = some payload;
      })
  ok block

-- The arguments of `_execute`.
pub record Call : Type 0 where
  pub opcode : Opcode
  pub payload : Option EncodedPayload
  pub mode : ReadMode

bare : Opcode → Result Call
bare opcode = ok (record { opcode = opcode; payload = none; mode = ReadMode.default })

of_block : Codec → Opcode → ReadMode → FirmwareBlock → Bool → Bool → Result Call
unfolding to_payload
of_block codec opcode mode block identity_only patch = do
  payload ← to_payload codec block identity_only patch
  ok (record { opcode = opcode; payload = some payload; mode = mode })

pub call : Codec → Method → Result Call
unfolding bare of_block
call codec noop = bare Opcode.none
call codec version = bare Opcode.version
call codec (read_block ident mode) = of_block codec Opcode.block_read mode ident true false
call codec (read_all_blocks mode) =
    ok (record { opcode = Opcode.block_read_all; payload = none; mode = mode })
call codec (write_block block) =
    of_block codec Opcode.block_write ReadMode.default block false false
call codec (patch_block block) = of_block codec Opcode.block_write ReadMode.default block false true
call codec (create_block block) =
    of_block codec Opcode.block_create ReadMode.default block false false
call codec (delete_block ident) =
    of_block codec Opcode.block_delete ReadMode.default ident true false
call codec discover_blocks = bare Opcode.block_discover
call codec read_all_block_names = bare Opcode.name_read_all
call codec (write_block_name ident) =
    of_block codec Opcode.name_write ReadMode.default ident true false
call codec reboot = bare Opcode.reboot
call codec clear_blocks = bare Opcode.clear_blocks
call codec clear_wifi = bare Opcode.clear_wifi
call codec factory_reset = bare Opcode.factory_reset
call codec firmware_update = bare Opcode.firmware_update

-- The result of a method; one that returns a single block gives a list of one, and one that returns
-- nothing an empty list.
pub reply : Codec → Method → List EncodedPayload → Result (List FirmwareBlock)
unfolding to_first to_blocks
reply codec (read_block ident mode) payloads = to_first codec mode payloads
reply codec (read_all_blocks mode) payloads = to_blocks codec mode payloads
reply codec (write_block block) payloads = to_first codec ReadMode.default payloads
reply codec (patch_block block) payloads = to_first codec ReadMode.default payloads
reply codec (create_block block) payloads = to_first codec ReadMode.default payloads
reply codec (write_block_name ident) payloads = to_first codec ReadMode.default payloads
reply codec discover_blocks payloads = to_blocks codec ReadMode.default payloads
reply codec read_all_block_names payloads = to_blocks codec ReadMode.default payloads
reply codec clear_blocks payloads = to_blocks codec ReadMode.default payloads
reply codec _ payloads = ok []
