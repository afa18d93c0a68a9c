-- ===== src/Tests/Mock.antt =====
-- A mock connection with a codec that writes no content.
use brewblox_devcon_spark.Base.{ℕ, List, [], ◌∷◌, Option, none, some, String, ◌≡◌, refl, ◌⊎◌}
use brewblox_devcon_spark.Base.Exn.{ok, err, encode_exception, decode_exception}
use brewblox_devcon_spark.Base.Json.{number, end}
use brewblox_devcon_spark.Models.Messages.{
  BlockTypeRef, type_str, EncodedPayload, MaskMode, ReadMode, Opcode, ErrorCode,
  IntermediateRequest, IntermediateResponse,
}
use brewblox_devcon_spark.Command.{Codec}
use brewblox_devcon_spark.MockConnection.{Clock, init, default_blocks}
use brewblox_devcon_spark.MockConnection.Handlers.{handle_command, update_systime, run}
use brewblox_devcon_spark.MockConnection.Handlers.Stays.{HasSystem}
use brewblox_devcon_spark.MockConnection.Handlers.SystemBlocks.{run-HasSystem}
use brewblox_devcon_spark.MockConnection.Handlers.Refusals.{handle_command-Refuses}

abbrev ref : Option String → Option BlockTypeRef
ref none = none
ref (some t) = some (type_str t)

abbrev name : Option BlockTypeRef → Option String
name (some (type_str t)) = some t
name _ = none

abbrev codec : Codec
codec = record {
  encode_payload = λ p. ok (record {
    block_id = p.block_id;
    block_type = ref p.block_type;
    name = p.name;
    content = "";
    mask_mode = p.mask_mode;
    mask_fields = [];
  });
  decode_payload = λ p mode. ok (record {
    block_id = p.block_id;
    block_type = name p.block_type;
    name = p.name;
    content = some end;
    mask_mode = p.mask_mode;
    mask_fields = [];
  });
  encode_request = λ r. err encode_exception;
  decode_response = λ t. err decode_exception;
}

abbrev clock : Clock
clock = record { uptime = λ start now. number now; system_time = λ start now. number now }

abbrev payload : ℕ → EncodedPayload
payload nid = record {
  block_id = nid;
  block_type = some (type_str "Pid");
  name = some "pid";
  content = "";
  mask_mode = MaskMode.no_mask;
  mask_fields = [];
}

abbrev request : Opcode → ℕ → IntermediateRequest
request opcode nid = record {
  msg_id = 1;
  opcode = opcode;
  mode = ReadMode.default;
  payload = some (payload nid);
}

abbrev requests : List (IntermediateRequest × ℕ)
requests =
    (request Opcode.block_create 0, 1)
    ∷ (request Opcode.block_delete 2, 2)
    ∷ (request Opcode.block_delete 100, 3)
    ∷ (request Opcode.clear_blocks 0, 4)
    ∷ []

run-HasSystem_example :
    HasSystem (run codec clock [] requests (init 0 (some ErrorCode.not_allowed ∷ none ∷ [])))
    × ((update_systime codec clock [] 5
          (run codec clock [] requests (init 0 (some ErrorCode.not_allowed ∷ none ∷ [])))).0
        ≡ ok tt)
run-HasSystem_example =
    run-HasSystem codec clock [] 0 (some ErrorCode.not_allowed ∷ none ∷ []) requests 5

abbrev refused : IntermediateResponse
refused = record {
  msg_id = 1;
  error = ErrorCode.block_not_deletable;
  mode = ReadMode.default;
  payload = [];
}

is_refused :
    (handle_command codec clock [] (request Opcode.block_delete 2) 3 (init 0 [])).0
    ≡ ok (some refused)
unfolding handle_command
is_refused = refl

handle_command-Refuses_example :
    (ErrorCode.block_not_deletable ≡ ErrorCode.ok)
    ⊎ ((handle_command codec clock [] (request Opcode.block_delete 2) 3 (init 0 [])).1.blocks
        ≡ default_blocks)
handle_command-Refuses_example =
    handle_command-Refuses codec clock [] (request Opcode.block_delete 2) 3 (init 0 []) refused
      is_refused
