-- ===== src/Ymodem.antt =====
-- ymodem.py: the transfer of a firmware file. A byte is a number. What the receiver sends is an
-- argument: for each packet that is written, the first bytes of the messages that arrive behind it.
-- A wait without an answer ends in the timeout of the caller.
pub mod Packets
pub mod Transfer
use brewblox_devcon_spark.Base.{
  ℕ, zero, suc, ◌+◌, ◌-◌, ◌/◌, ◌%◌, not, List, [], ◌∷◌, ◌++◌, take, drop, replicate, length, Text,
  ◌==◌, if◌then◌else◌,
}
use brewblox_devcon_spark.Base.Exn.{
  Exn, Result, ok, err, value_error, assertion_error, runtime_error, timeout_error,
  connection_aborted,
}

pub data Control : Type 0 where
  soh stx eot eof ack nak can continue : Control

-- `Control(value)`
unfoldable pub control : ℕ → Result Control
control value =
    if value == 1
    then ok Control.soh
    else if value == 2
    then ok Control.stx
    else if value == 4
    then ok Control.eot
    else if value == 26
    then ok Control.eof
    else if value == 6
    then ok Control.ack
    else if value == 21
    then ok Control.nak
    else if value == 24
    then ok Control.can
    else if value == 67
    then ok Control.continue
    else err value_error

abbrev pub packet_mark : ℕ
packet_mark = 2

abbrev pub data_len : ℕ
data_len = 1024

abbrev pub packet_len : ℕ
packet_len = data_len + 5

-- What the receiver answers to the packets, by how many were written before.
abbrev pub Receiver : Type 0
Receiver = ℕ → List ℕ

-- The packets that were written.
abbrev pub Line : Type 0
Line = List (List ℕ)

or_next : Result Control → Result Control → Result Control
or_next (ok Control.continue) later = later
or_next r later = r

-- The loop of `_send_packet`: the first answer that is no continue prompt.
unfoldable pub answer : List ℕ → Result Control
unfolding or_next control
answer [] = err timeout_error
answer (b ∷ bs) = or_next (control b) (answer bs)

-- `_send_packet`; older messages are cleared.
unfoldable pub send_packet : Receiver → List ℕ → Line → Result Control × Line
unfolding answer
send_packet receiver packet line = (answer (receiver (length line)), line ++ packet ∷ [])

unfoldable pub packet_of : ℕ → List ℕ → List ℕ
packet_of seq bytes =
    let packet_seq = seq % 256 in
    packet_mark ∷ packet_seq ∷ (255 - packet_seq) ∷ (bytes ++ replicate (data_len - length bytes) 0)
    ++ 0 ∷ 0 ∷ []

is_nak : Result Control → Line → Result Control × Line → Result Control × Line
is_nak (ok Control.nak) line again = again
is_nak r line again = (r, line)

-- `_send_data`: a packet that is not accepted is sent once more.
unfoldable pub send_data : Receiver → ℕ → List ℕ → Line → Result Control × Line
unfolding send_packet packet_of is_nak
send_data receiver seq bytes line =
    let packet = packet_of seq bytes in
    if length packet == packet_len
    then (let (r, sent) = send_packet receiver packet line in
        is_nak r sent (send_packet receiver packet sent))
    else (err runtime_error, line)

-- The digits of the file size.
size_text : ℕ → ℕ → Text
size_text zero n = []
size_text (suc fuel) n =
    let front = size_text fuel (n / 10) in
    (if n / 10 == 0 then [] else front) ++ (b'0' + n % 10) ∷ []

unfoldable pub header_data : Text → ℕ → List ℕ
unfolding size_text
header_data name size = packet_mark ∷ name ++ 0 ∷ size_text (suc size) size ++ b' ' ∷ []

-- A step that was not acknowledged ends the transfer.
acked : Result Control × Line → (Line → Result (Unit {0}) × Line) → Result (Unit {0}) × Line
acked (ok Control.ack, line) next = next line
acked (ok c, line) next = (err connection_aborted, line)
acked (err e, line) next = (err e, line)

-- The loop over the file, `left` packets from number `current` on.
unfoldable pub send_body :
    Receiver → ℕ → ℕ → List ℕ → (Line → Result (Unit {0}) × Line) → Line → Result (Unit {0}) × Line
unfolding send_data acked
send_body receiver zero current file next line = next line
send_body receiver (suc left) current file next line =
    acked (send_data receiver current (take data_len file) line)
      (send_body receiver left (current + 1) (drop data_len file) next)

abbrev pub num_packets : ℕ → ℕ
num_packets fsize = (fsize + 1023) / 1024

closed : Result Control × Line → Result (Unit {0}) × Line
closed (ok c, line) = (ok tt, line)
closed (err e, line) = (err e, line)

-- The end of the transmission, and the closing header.
asserted : Result Control × Line → (Line → Result (Unit {0}) × Line) → Result (Unit {0}) × Line
asserted (ok Control.ack, line) next = next line
asserted (ok c, line) next = (err assertion_error, line)
asserted (err e, line) next = (err e, line)

unfoldable pub finish : Receiver → Line → Result (Unit {0}) × Line
unfolding asserted closed send_data send_packet
finish receiver line =
    asserted (send_packet receiver (4 ∷ []) line) (λ l. closed (send_data receiver 0 [] l))

-- `_transfer`
unfoldable pub transfer : Receiver → Text → List ℕ → Line → Result (Unit {0}) × Line
unfolding acked send_data header_data send_body finish
transfer receiver name file line =
    acked (send_data receiver 0 (header_data name (length file)) line)
      (send_body receiver (num_packets (length file)) 1 file (finish receiver))
