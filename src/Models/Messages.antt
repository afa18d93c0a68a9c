-- ===== src/Models/Messages.antt =====
-- models.py: requests, responses and blocks as the command layer passes them on. The payload content
-- that the codec makes is a Base64 text; decoded content is JSON.
use brewblox_devcon_spark.Base.{ℕ, List, Option, String}
use brewblox_devcon_spark.Base.Json.{Fields}

pub data Opcode : Type 0 where
  none version : Opcode
  block_read block_read_all block_write block_create block_delete block_discover : Opcode
  storage_read storage_read_all : Opcode
  name_read name_read_all name_write : Opcode
  reboot clear_blocks clear_wifi factory_reset : Opcode
  firmware_update : Opcode

pub data ErrorCode : Type 0 where
  ok unknown_error invalid_opcode not_allowed : ErrorCode
  insufficient_heap insufficient_storage : ErrorCode
  network_error network_read_error network_decoding_error network_write_error : ErrorCode
  network_encoding_error : ErrorCode
  storage_error storage_read_error storage_decoding_error storage_crc_error : ErrorCode
  storage_write_error storage_encoding_error storage_out_of_bounds_error : ErrorCode
  block_not_writable block_not_readable block_not_creatable block_not_deletable : ErrorCode
  invalid_block invalid_block_id invalid_block_type invalid_block_content : ErrorCode
  invalid_block_name : ErrorCode
  invalid_stored_block invalid_stored_block_id invalid_stored_block_type : ErrorCode
  invalid_stored_block_content invalid_stored_block_name : ErrorCode
  duplicate_block_id duplicate_block_name : ErrorCode

pub data ReadMode : Type 0 where
  default stored logged : ReadMode

pub data MaskMode : Type 0 where
  no_mask inclusive exclusive : MaskMode

-- `blockType` of an encoded payload: a number or a name.
pub data BlockTypeRef : Type 0 where
  type_int : ℕ → BlockTypeRef
  type_str : String → BlockTypeRef

pub record EncodedPayload : Type 0 where
  pub block_id : ℕ
  pub block_type : Option BlockTypeRef
  pub name : Option String
  pub content : String
  pub mask_mode : MaskMode
  pub mask_fields : List (List ℕ)

pub record DecodedPayload : Type 0 where
  pub block_id : ℕ
  pub block_type : Option String
  pub name : Option String
  pub content : Option Fields
  pub mask_mode : MaskMode
  pub mask_fields : List (List ℕ)

-- The identity of a block; the type and the data are given for a whole block.
pub record FirmwareBlock : Type 0 where
  pub id : Option String
  pub nid : ℕ
  pub type : Option String
  pub content : Option Fields

pub record IntermediateRequest : Type 0 where
  pub msg_id : ℕ
  pub opcode : Opcode
  pub mode : ReadMode
  pub payload : Option EncodedPayload

pub record IntermediateResponse : Type 0 where
  pub msg_id : ℕ
  pub error : ErrorCode
  pub mode : ReadMode
  pub payload : List EncodedPayload
