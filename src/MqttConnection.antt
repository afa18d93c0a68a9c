-- ===== src/MqttConnection.antt =====
-- connection/mqtt_connection.py: the response callback, which joins the chunks of a message. A
-- payload is the text that its bytes decode to, `none` where they are no UTF-8. The list of chunks
-- is an attribute that the constructor does not set: it is `none` until the first reset.
pub mod Messages
pub mod History
use brewblox_devcon_spark.Base.{
  ℕ, Bool, true, false, not, ◌≡◌, List, [], ◌∷◌, ◌++◌, Option, none, some, Text, length,
  if◌then◌else◌,
}
use brewblox_devcon_spark.Base.Exn.{Result, ok, err, attribute_error}
use brewblox_devcon_spark.Base.Str.{ℤ, pos, contains, rstrip, split, concat, parse_int, int_eq}

pub record MqttConnection : Type 0 where
  pub recv_msg_id : ℤ
  pub recv_chunks : Option (List Text)

abbrev pub init : MqttConnection
init = record { recv_msg_id = pos 0; recv_chunks = none }

unfoldable pub reset_recv_buffer : ℤ → MqttConnection → MqttConnection
reset_recv_buffer msg_id s = record { recv_msg_id = msg_id; recv_chunks = some [] }

-- The parts of a payload, `msg_id;chunk_idx;chunk`.
pub record Payload : Type 0 where
  pub msg_id : ℤ
  pub chunk_idx : ℤ
  pub chunk : Text

numbered : Option ℤ → Option ℤ → Text → Option Payload
numbered (some msg_id) (some chunk_idx) chunk =
    some (record { msg_id = msg_id; chunk_idx = chunk_idx; chunk = chunk })
numbered _ _ chunk = none

unpack : List Text → Option Payload
unfolding numbered parse_int
unpack (msg_id ∷ chunk_idx ∷ chunk ∷ []) = numbered (parse_int msg_id) (parse_int chunk_idx) chunk
unpack _ = none

-- `none` is a ValueError: no UTF-8, not three parts, or no integers.
unfoldable pub parse_payload : Option Text → Option Payload
unfolding unpack split
parse_payload none = none
parse_payload (some t) = unpack (split b';' t)

-- The state, and the message that `on_response` is called with.
pub record Received : Type 0 where
  pub state : MqttConnection
  pub response : Option Text

-- Behind the reset for another message: `chunks` is what was received of this one.
unfoldable pub add_chunk : Payload → List Text → Received
add_chunk p chunks =
    let all = chunks ++ p.chunk ∷ [] in
    let after : MqttConnection = record { recv_msg_id = p.msg_id; recv_chunks = some all } in
    if not (int_eq (pos (length chunks)) p.chunk_idx)
    then record { state = reset_recv_buffer (pos 0) after; response = none }
    else if contains b'\n' p.chunk
    then record { state = reset_recv_buffer (pos 0) after; response = some (rstrip (concat all)) }
    else record { state = after; response = none }

-- `len(None)`, where the attribute does not exist yet, is an error of the callback.
with_chunks : Payload → Option (List Text) → Result Received
with_chunks p none = err attribute_error
with_chunks p (some chunks) = ok (add_chunk p chunks)

on_payload : Option Payload → MqttConnection → Result Received
unfolding with_chunks
on_payload none s = ok (record { state = reset_recv_buffer (pos 0) s; response = none })
on_payload (some p) s =
    with_chunks p (if int_eq p.msg_id s.recv_msg_id then s.recv_chunks else some [])

unfoldable pub resp_cb : Option Text → MqttConnection → Result Received
unfolding on_payload
resp_cb payload s = on_payload (parse_payload payload) s
