-- ===== src/Lib.antt =====
-- The core of brewblox-devcon-spark, the service between a Spark controller and the Brewblox
-- eventbus, as definitions and theorems. Paths are below brewblox_devcon_spark/ of the repository.
--
-- A connection delivers text to a parser or a callback, which cut it into events and responses. The
-- connection handler makes connections and reports them to the state machine. The commander matches
-- responses to its requests, and gives handshake events to the state machine, which checks them
-- against the configuration. The API converts blocks between names and numbers, and refuses calls
-- that the state does not allow. Block data that the service publishes is analysed for relations and
-- claims; a firmware file goes to the controller in packets.
--
-- Base: outcomes of code that raises (Base/Exn), methods of `str` (Base/Str), `dict` with text keys
--   (Base/Dict) and with number keys (Base/Table), the values of block data (Base/Json), string
--   literals as code points (Base/Codes), lists and tests over native numbers.
-- Models, Models/Config: the records and literals of models.py that the other parts read.
-- CboxParser: connection/cbox_parser.py. A text is its list of code points. `find_event` and
--   `find_data` are the two patterns; `coerce_loop` has fuel one above the length of the buffer,
--   which is enough, since each replacement removes a character.
-- MqttConnection: connection/mqtt_connection.py, the response callback and its chunk buffer.
-- ConnectionHandler: connection/connection_handler.py. A duration is its number of microseconds. What
--   the environment does (what a try to connect gives, how a connection ends) is an argument of
--   `run`; the rounds of discovery that the timeout leaves room for are a number.
--   ConnectionHandler/Discovery says which try is taken.
-- StateMachine: state_machine.py, the status description and the flags of the events.
-- Bloxfield, BlockAnalysis: codec/bloxfield.py and block_analysis.py. The recursion of
--   `extended_claim` has a bound, one more than the number of claimed blocks, which is enough.
-- Command: command.py, with the request and response records of models.py in Models/Messages and the
--   reset reasons in Models/Reset. The codec is a record of functions (`Codec`). `begin` is
--   `_execute` up to its wait and `finish` what follows it; Command/Exchange has the steps in which
--   the event loop interleaves them with `on_response`.
-- SparkApi: spark_api.py. The bidict of block names, the commander, and the sequence compiler are
--   fields of `Env`; code that changes the state, also when it raises, is an `Act`
--   (SparkApi/Actions). SparkApi/Links has `merge` and `resolve_data_ids`, SparkApi/Blocks the
--   conversions of blocks, SparkApi/Calls the methods.
-- Ymodem: ymodem.py, the transfer of a file. The receiver is a function from the number of packets
--   that were written to the bytes that it sends behind the next one.
-- TimeUtils: codec/time_utils.py, `serialize_duration` and, in TimeUtils/Moments, datetimes. The
--   digits of a number have fuel one above the number, which is enough.
-- Codec: codec/__init__.py, processor.py, lookup.py and unit_conversion.py. Codec/Walk is
--   `_walk_elements` as a function that takes the body of the loop and its state; what a body does
--   with the value of an element, which it deletes or puts under a key, is an `Action`. Codec/Encode
--   is `pre_encode` (Codec/Encode/Sent: what is sent, over paths of keys and indices), Codec/Decode `post_decode`, Codec/Values their conversions of single values,
--   Codec/Payloads `encode_payload` and `decode_payload`, Codec/Wire the requests and responses, with
--   the interface that Command takes. Codec/Libraries has the records for protobuf, pint,
--   ipaddress and arithmetic on floats; a host with the low byte first is assumed for `htonl`.
-- MockConnection: connection/mock_connection.py. MockConnection/Handlers has `handle_command` with a
--   function per command; the codec is the interface of Command, the times of the clock arguments.
-- Synchronization: synchronization.py. A wait is a function of `Env` that may change the state
--   machine, as other tasks do; `rounds` of it bounds the handshake loop by its timeout.
-- Tests: the theorems with conditions at concrete values.
--
-- Not modelled: the generated message classes and the protobuf runtime, the compiler of sequence
-- lines, the background loops, sockets and subprocesses, the MQTT, mDNS and HTTP clients, the HTTP
-- routes, logging, and the start of the application. What the parts above use of them is a
-- parameter. `str.upper`, `str.lower`, `str.isdigit` and `int` of a text are modelled for ASCII
-- only, and the text of a float that stands as a block number is not.
pub mod Base
pub mod BlockAnalysis
pub mod Bloxfield
pub mod CboxParser
pub mod Codec
pub mod Command
pub mod ConnectionHandler
pub mod MockConnection
pub mod Models
pub mod MqttConnection
pub mod SparkApi
pub mod StateMachine
pub mod Synchronization
pub mod Tests
pub mod TimeUtils
pub mod Ymodem
