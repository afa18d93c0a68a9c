-- ===== src/Command.antt =====
-- command.py: requests and responses are matched by a message number. The codec is a parameter. A
-- future is an address in `futures`, since the table of active messages and the waiting task share it.
pub mod Methods
pub mod Exchange
pub mod Slots
pub mod Handshake
use brewblox_devcon_spark.Base.{
  ℕ, ◌+◌, ◌%◌, Bool, true, false, List, [], ◌∷◌, Option, none, some, Text, if◌then◌else◌,
}
use brewblox_devcon_spark.Base.Exn.{
  Exn, Result, ok, err, value_error, timeout_error, command_exception, command_timeout, key_error,
}
use brewblox_devcon_spark.Base.Table.{Table, find, put, remove, is_empty}
use brewblox_devcon_spark.Models.Messages.{
  Opcode, ErrorCode, ReadMode, EncodedPayload, DecodedPayload, IntermediateRequest,
  IntermediateResponse,
}

-- What codec/__init__.py does for this module.
pub record Codec : Type 0 where
  pub encode_payload : DecodedPayload → Result EncodedPayload
  pub decode_payload : EncodedPayload → ReadMode → Result DecodedPayload
  pub encode_request : IntermediateRequest → Result Text
  pub decode_response : Text → Result IntermediateResponse

pub data Future : Type 0 where
  pending cancelled : Future
  done : IntermediateResponse → Future

-- `calls` counts the calls of `_next_id`, and numbers the futures.
pub record CboxCommander : Type 0 where
  pub msgid : ℕ
  pub active_messages : Table ℕ
  pub empty_ev : Bool
  pub futures : Table Future
  pub calls : ℕ

abbrev pub init : CboxCommander
init = record { msgid = 0; active_messages = []; empty_ev = true; futures = []; calls = 0 }

unfoldable pub next_id : CboxCommander → CboxCommander
next_id c = record c { msgid = (c.msgid + 1) % 65535; calls = c.calls + 1 }

-- A call of `_execute` that waits: its message number, the address of its future, and the message.
pub record Request : Type 0 where
  pub msg_id : ℕ
  pub fut : ℕ
  pub msg : Text

-- Behind `encode_request`.
unfoldable pub activate : Text → CboxCommander → Request × CboxCommander
unfolding put
activate msg c = (
  record { msg_id = c.msgid; fut = c.calls; msg = msg },
  record c {
    active_messages = put c.msgid c.calls c.active_messages;
    futures = put c.calls pending c.futures;
    empty_ev = false;
  },
)

activate_encoded : Result Text → CboxCommander → Result Request × CboxCommander
unfolding activate
activate_encoded (err e) c = (err e, c)
activate_encoded (ok msg) c = let (r, c') = activate msg c in (ok r, c')

-- `_execute` up to the request that is sent.
unfoldable pub begin :
    Codec
    → Opcode
    → Option EncodedPayload
    → ReadMode
    → CboxCommander
    → Result Request × CboxCommander
unfolding next_id activate_encoded
begin codec opcode payload mode c =
    let c' = next_id c in
    activate_encoded
      (codec.encode_request
        (record { msg_id = c'.msgid; opcode = opcode; mode = mode; payload = payload }))
      c'

-- `fut.set_result` raises for a future that is not pending.
unfoldable pub set_result : IntermediateResponse → ℕ → Option Future → Table Future → Table Future
unfolding put
set_result response fut (some pending) futures = put fut (done response) futures
set_result response fut _ futures = futures

-- `none` is an unexpected message.
awaited : IntermediateResponse → Option ℕ → Table Future → Table Future
unfolding set_result find
awaited response none futures = futures
awaited response (some fut) futures = set_result response fut (find fut futures) futures

decoded : Result IntermediateResponse → Table ℕ → Table Future → Table Future
unfolding awaited find
decoded (err e) active_messages futures = futures
decoded (ok response) active_messages futures =
    awaited response (find response.msg_id active_messages) futures

-- `_on_response`: every exception is logged.
pub on_response : Codec → Text → CboxCommander → CboxCommander
unfolding decoded
on_response codec msg c = record c {
  futures = decoded (codec.decode_response msg) c.active_messages c.futures;
}

-- How the `try` block of `_execute` ends its waiting.
pub data Outcome : Type 0 where
  answered : IntermediateResponse → Outcome
  timed_out : Outcome
  failed : Exn → Outcome

pub is_ok : ErrorCode → Bool
is_ok ErrorCode.ok = true
is_ok _ = false

pub conclude : Outcome → Result (List EncodedPayload)
unfolding is_ok
conclude (answered response) =
    if is_ok response.error then ok response.payload else err command_exception
conclude timed_out = err command_timeout
conclude (failed timeout_error) = err command_timeout
conclude (failed e) = err e

-- A timeout cancels the future.
cancel : ℕ → Outcome → Table Future → Table Future
unfolding put
cancel fut timed_out futures = put fut cancelled futures
cancel fut _ futures = futures

-- `finally`: a missing number raises KeyError in place of the outcome.
release :
    Option ℕ → Request → Outcome → CboxCommander → Result (List EncodedPayload) × CboxCommander
unfolding conclude remove is_empty
release none r o c = (err key_error, c)
release (some fut) r o c =
    let left = remove r.msg_id c.active_messages in
    (
      conclude o,
      record c { active_messages = left; empty_ev = if is_empty left then true else c.empty_ev },
    )

pub finish : Request → Outcome → CboxCommander → Result (List EncodedPayload) × CboxCommander
unfolding cancel release find
finish r o c =
    release (find r.msg_id c.active_messages) r o (record c { futures = cancel r.fut o c.futures })
