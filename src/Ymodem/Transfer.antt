-- ===== src/Ymodem/Transfer.antt =====
-- A transfer to a receiver that accepts every packet.
use brewblox_devcon_spark.Base.{
  ℕ, zero, suc, ◌+◌, ◌≤◌, ◌<◌, ◌≡◌, refl, List, [], ◌∷◌, ◌++◌, append_assoc, append-nil, map, take,
  drop, length, length-take, Text, arith,
}
use brewblox_devcon_spark.Base.Exn.{Result, ok, err, runtime_error}
use brewblox_devcon_spark.Base.Str.{concat}
use brewblox_devcon_spark.Ymodem.{
  Control, Receiver, Line, data_len, answer, send_packet, packet_of, send_data, header_data, acked,
  send_body, num_packets, finish, transfer, asserted, closed,
}
use brewblox_devcon_spark.Ymodem.Packets.{
  blocks, payload, length-packet_of, packet_of_too_long, concat-blocks,
}

-- The receiver answers every packet with ACK, behind any number of continue prompts.
unfoldable pub Accepts : Receiver → Type 0
Accepts receiver = (n : ℕ) → answer (receiver n) ≡ ok Control.ack

abbrev eot_packet : List ℕ
eot_packet = 4 ∷ []

module _ (receiver : Receiver) (accepts : Accepts receiver) where
  send_data-accepted :
      (seq : ℕ) (bytes : List ℕ) (line : Line)
      → length bytes ≤ data_len
      → send_data receiver seq bytes line ≡ (ok Control.ack, line ++ packet_of seq bytes ∷ [])
  unfolding send_data send_packet Accepts
  send_data-accepted seq bytes line h =
      rw (length-packet_of seq bytes h, accepts (length line)) refl

  send_body-accepted :
      (left current : ℕ) (file : List ℕ) (next : Line → Result (Unit {0}) × Line) (line : Line)
      → send_body receiver left current file next line ≡ next (line ++ blocks left current file)
  unfolding send_body blocks acked
  send_body-accepted zero current file next line = rw (append-nil line) refl
  send_body-accepted (suc left) current file next line =
      let fits : length (take data_len file) ≤ data_len =
        omega (arith, length-take data_len file) in
      rw
        (
          send_data-accepted current (take data_len file) line fits,
          send_body-accepted left (current + 1) (drop data_len file) next
              (line ++ packet_of current (take data_len file) ∷ []),
          append_assoc line (packet_of current (take data_len file) ∷ [])
              (blocks left (current + 1) (drop data_len file)),
        )
        refl

  finish-accepted :
      (line : Line)
      → finish receiver line ≡ (ok tt, (line ++ eot_packet ∷ []) ++ packet_of 0 [] ∷ [])
  unfolding finish send_packet Accepts asserted closed
  finish-accepted line =
      rw (accepts (length line), send_data-accepted 0 [] (line ++ eot_packet ∷ []) (omega arith))
        refl

-- If the receiver accepts every packet, and the name and the size fit in the header, the transfer
-- succeeds and writes the header, the packets of the file numbered from 1 on, the end of the
-- transmission and a closing header; and the data of the packets, cut to the size, is the file.
pub transfer-accepted :
    (receiver : Receiver) (name : Text) (file : List ℕ)
    → Accepts receiver
    → length (header_data name (length file)) ≤ data_len
    → let bs = blocks (num_packets (length file)) 1 file in
      (transfer receiver name file [] ≡ (
        ok tt,
        (((packet_of 0 (header_data name (length file)) ∷ bs) ++ (4 ∷ []) ∷ [])
            ++ packet_of 0 [] ∷ []),
      ))
      × (take (length file) (concat (map payload bs)) ≡ file)
unfolding transfer acked
transfer-accepted receiver name file accepts h = (
  rw
      (
        send_data-accepted receiver accepts 0 (header_data name (length file)) [] h,
        send_body-accepted receiver accepts (num_packets (length file)) 1 file (finish receiver)
            (packet_of 0 (header_data name (length file)) ∷ []),
      )
      (finish-accepted receiver accepts
        (packet_of 0 (header_data name (length file)) ∷ blocks (num_packets (length file)) 1 file)),
  concat-blocks (num_packets (length file)) 1 file (omega arith),
)

-- Data that does not fit raises RuntimeError before anything is written.
pub send_data-too_long :
    (receiver : Receiver) (seq : ℕ) (bytes : List ℕ) (line : Line)
    → data_len < length bytes
    → send_data receiver seq bytes line ≡ (err runtime_error, line)
unfolding send_data
send_data-too_long receiver seq bytes line h = rw (packet_of_too_long seq bytes h) refl
