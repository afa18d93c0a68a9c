-- ===== src/CboxParser.antt =====
-- connection/cbox_parser.py: the buffer that splits stream data into events and data messages.
-- A text is its list of code points. The two patterns are searched as `re` searches them, leftmost
-- match first; the queues are the lists of messages that a caller has not taken yet.
pub mod Rounds
pub mod Annotations
pub mod Lines
pub mod Nests
pub mod Chunks
use brewblox_devcon_spark.Base.{
  ℕ, zero, suc, List, [], ◌∷◌, ◌++◌, Option, none, some, true, false, Text, length, ◌==◌,
  if◌then◌else◌,
}
use brewblox_devcon_spark.Base.Str.{rstrip, contains}

-- What a match leaves: the group `message`, and the buffer with the match replaced by ''.
pub record Match : Type 0 where
  pub message : Text
  pub rest : Text

-- One more character that stays in the buffer, before the match.
pub keep : ℕ → Option Match → Option Match
keep c none = none
keep c (some m) = some (record m { rest = c ∷ m.rest })

-- One more character of the message.
pub extend : ℕ → Option Match → Option Match
extend c none = none
extend c (some m) = some (record m { message = c ∷ m.message })

-- `[^<]*?>`, behind a `<`.
pub close_event : Text → Option Match
close_event [] = none
close_event (c ∷ s) =
    if c == b'>'
    then some (record { message = []; rest = s })
    else if c == b'<'
    then none
    else extend c (close_event s)

pub or_later : ℕ → Option Match → Option Match → Option Match
or_later c (some m) later = some m
or_later c none later = keep c later

-- EVENT_PATTERN, `<(?P<message>[^<]*?)>`: the leftmost position where it matches.
pub find_event : Text → Option Match
unfolding close_event or_later keep extend
find_event [] = none
find_event (c ∷ s) = or_later c (if c == b'<' then close_event s else none) (find_event s)

-- DATA_PATTERN, `^(?P<message>[^^]*?)\n`: at the start of the buffer only.
pub find_data : Text → Option Match
unfolding extend
find_data [] = none
find_data (c ∷ s) =
    if c == b'\n'
    then some (record { message = []; rest = s })
    else if c == b'^'
    then none
    else extend c (find_data s)

-- The buffer, and the messages found in it.
pub record Found : Type 0 where
  pub messages : List Text
  pub buffer : Text

-- `_coerce_message_from_buffer`: `re.sub` with count 1 until the end character is gone or the
-- buffer keeps its length, which it does when the pattern finds nothing. Each round but the last
-- shortens the buffer.
pub coerce_loop : (Text → Option Match) → ℕ → ℕ → List Text → Text → Found
unfolding rstrip contains
coerce_loop find end zero messages buffer = record { messages = messages; buffer = buffer }
coerce_loop find end (suc fuel) messages buffer = elim (contains end buffer) [
  | false ↦ record { messages = messages; buffer = buffer }
  | true ↦ elim (find buffer) [
    | none ↦ record { messages = messages; buffer = buffer }
    | some m ↦ coerce_loop find end fuel (messages ++ rstrip m.message ∷ []) m.rest
  ]
]

pub coerce_message_from_buffer : (Text → Option Match) → ℕ → Text → Found
unfolding coerce_loop
coerce_message_from_buffer find end buffer = coerce_loop find end (suc (length buffer)) [] buffer

pub record CboxParser : Type 0 where
  pub buffer : Text
  pub events : List Text
  pub queued : List Text

abbrev pub init : CboxParser
init = record { buffer = []; events = []; queued = [] }

pub push : CboxParser → Text → CboxParser
push p recv =
    let found = coerce_message_from_buffer find_event b'>' (p.buffer ++ recv) in
    let lines = coerce_message_from_buffer find_data b'\n' found.buffer in
    record {
      buffer = lines.buffer;
      events = p.events ++ found.messages;
      queued = p.queued ++ lines.messages;
    }

-- `event_messages` and `data_messages` drain their queues.
pub event_messages : CboxParser → List Text × CboxParser
event_messages p = (p.events, record p { events = [] })

pub data_messages : CboxParser → List Text × CboxParser
data_messages p = (p.queued, record p { queued = [] })
