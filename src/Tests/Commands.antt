-- ===== src/Tests/Commands.antt =====
-- Two requests in progress, with a codec that writes only the message number.
use brewblox_devcon_spark.Base.{
  ◌≡◌, refl, false, List, [], ◌∷◌, none, some, Text, arith, Option, String, ◌==◌, if◌then◌else◌,
}
use brewblox_devcon_spark.Base.Exn.{Result, ok, err, value_error, decode_exception}
use brewblox_devcon_spark.Base.Codes.{codes}
use brewblox_devcon_spark.Base.Str.{contains}
use brewblox_devcon_spark.Base.Table.{find, put, is_empty}
use brewblox_devcon_spark.Models.Messages.{
  Opcode, ErrorCode, ReadMode, IntermediateResponse, BlockTypeRef, type_int, type_str,
}
use brewblox_devcon_spark.Models.{lower}
use brewblox_devcon_spark.Models.Reset.{name_of, upper}
use brewblox_devcon_spark.StateMachine.{init as state_init, set_acknowledged}
use brewblox_devcon_spark.Command.{
  Codec, CboxCommander, pending, done, Request, timed_out, begin, next_id, activate, on_response,
  finish, conclude,
}
use brewblox_devcon_spark.Command.Exchange.{System, idle, start, Reach, begun, later}
use brewblox_devcon_spark.Command.Slots.{
  entries, finish-Reach, on_response-Reach, on_response-unexpected,
}
use brewblox_devcon_spark.Command.Handshake.{
  on_event, joined, starts_with, on_event-handshake, on_event-short,
}
use brewblox_devcon_spark.Tests.Status.{config, fw}

decode : Text → Result IntermediateResponse
decode [] = err decode_exception
decode (id ∷ t) =
    ok (record { msg_id = id; error = ErrorCode.ok; mode = ReadMode.default; payload = [] })

abbrev to_ref : Option String → Option BlockTypeRef
to_ref none = none
to_ref (some t) = some (type_str t)

abbrev to_name : Option BlockTypeRef → Option String
to_name none = none
to_name (some (type_int n)) = some "UnknownType"
to_name (some (type_str t)) = some t

abbrev codec : Codec
codec = record {
  encode_payload = λ p. ok (record {
    block_id = p.block_id;
    block_type = to_ref p.block_type;
    name = p.name;
    content = "";
    mask_mode = p.mask_mode;
    mask_fields = p.mask_fields;
  });
  decode_payload = λ p mode. ok (record {
    block_id = p.block_id;
    block_type = to_name p.block_type;
    name = p.name;
    content = none;
    mask_mode = p.mask_mode;
    mask_fields = p.mask_fields;
  });
  encode_request = λ r. ok (r.msg_id ∷ []);
  decode_response = decode;
}

abbrev one : CboxCommander
one = record {
  msgid = 1;
  active_messages = (1, 1) ∷ [];
  empty_ev = false;
  futures = (1, pending) ∷ [];
  calls = 1;
}

abbrev two : CboxCommander
two = record {
  msgid = 2;
  active_messages = (1, 1) ∷ (2, 2) ∷ [];
  empty_ev = false;
  futures = (1, pending) ∷ (2, pending) ∷ [];
  calls = 2;
}

abbrev older : Request
older = record { msg_id = 1; fut = 1; msg = 1 ∷ [] }

abbrev newer : Request
newer = record { msg_id = 2; fut = 2; msg = 2 ∷ [] }

abbrev both : System
both = record { commander = two; running = older ∷ newer ∷ [] }

reach : Reach codec both
unfolding begin next_id activate put
reach = later (later begun (start idle Opcode.none none ReadMode.default older one tt refl)) (
    start (record { commander = one; running = older ∷ [] }) Opcode.version none ReadMode.default
      newer two (omega arith, tt) refl)

finish-Reach_example :
    let (result, c) = finish older timed_out both.commander in
    (result ≡ conclude timed_out)
    × (c.active_messages ≡ entries (newer ∷ []))
    × (c.empty_ev ≡ is_empty (entries (newer ∷ [])))
finish-Reach_example = finish-Reach codec [] (newer ∷ []) older timed_out reach refl

abbrev second : IntermediateResponse
second = record { msg_id = 2; error = ErrorCode.ok; mode = ReadMode.default; payload = [] }

on_response-Reach_example :
    find 2 (on_response codec (2 ∷ []) both.commander).futures
    ≡ (if 2 == 2 then some (done second) else find 2 both.commander.futures)
unfolding decode find
on_response-Reach_example =
    on_response-Reach codec (older ∷ []) [] newer (2 ∷ []) second reach refl refl refl refl 2

on_response-unexpected_example : on_response codec (7 ∷ []) both.commander ≡ both.commander
unfolding decode
on_response-unexpected_example =
    on_response-unexpected codec (7 ∷ [])
      (record { msg_id = 7; error = ErrorCode.ok; mode = ReadMode.default; payload = [] }) reach
      refl (refl, (refl, tt))

abbrev values : List Text
values =
    codes "f"
    ∷ codes "p"
    ∷ []
    ∷ []
    ∷ codes "sys"
    ∷ codes "photon"
    ∷ codes "8c"
    ∷ codes "00"
    ∷ codes "A1"
    ∷ []

on_event-handshake_example :
    on_event config (b'!' ∷ joined (codes "BREWBLOX") values) (state_init config fw)
    ≡ ok (
        set_acknowledged config
          (record {
            system_version = codes "sys";
            platform = codes "photon";
            reset_reason = codes "USER";
            firmware = record {
              firmware_version = codes "f";
              proto_version = codes "p";
              firmware_date = [];
              proto_date = [];
            };
            device = record { device_id = codes "a1" };
          })
          (state_init config fw))
unfolding starts_with contains name_of upper lower
on_event-handshake_example =
    on_event-handshake config (state_init config fw) (codes "BREWBLOX") (codes "f") (codes "p") []
      [] (codes "sys") (codes "photon") (codes "8c") (codes "00") (codes "A1") [] (codes "USER")
      refl (refl, (refl, (refl, (refl, (refl, (refl, (refl, (refl, (refl, (refl, tt)))))))))) refl

on_event-short_example :
    on_event config (b'!' ∷ joined (codes "BREWBLOX") (codes "f" ∷ [])) (state_init config fw)
    ≡ err value_error
unfolding starts_with contains
on_event-short_example =
    on_event-short config (codes "BREWBLOX") (codes "f" ∷ []) (state_init config fw) refl
      (refl, (refl, tt)) (omega arith)
