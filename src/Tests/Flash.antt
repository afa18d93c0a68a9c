-- ===== src/Tests/Flash.antt =====
-- A file of three bytes, to a receiver that prompts and then acknowledges.
use brewblox_devcon_spark.Base.{ℕ, ◌≡◌, refl, List, [], ◌∷◌, ◌++◌, map, take, length, arith}
use brewblox_devcon_spark.Base.Exn.{ok}
use brewblox_devcon_spark.Base.Str.{concat}
use brewblox_devcon_spark.Base.Codes.{codes}
use brewblox_devcon_spark.Ymodem.{
  Receiver, answer, control, packet_of, header_data, num_packets, transfer,
}
use brewblox_devcon_spark.Ymodem.Packets.{blocks, payload}
use brewblox_devcon_spark.Ymodem.Transfer.{Accepts, transfer-accepted}

abbrev receiver : Receiver
receiver n = 67 ∷ 6 ∷ []

accepts : Accepts receiver
unfolding Accepts answer control
accepts n = refl

abbrev file : List ℕ
file = 1 ∷ 2 ∷ 3 ∷ []

transfer-accepted_example :
    let bs = blocks (num_packets (length file)) 1 file in
    (transfer receiver (codes "f") file [] ≡ (
      ok tt,
      (((packet_of 0 (header_data (codes "f") (length file)) ∷ bs) ++ (4 ∷ []) ∷ [])
          ++ packet_of 0 [] ∷ []),
    ))
    × (take (length file) (concat (map payload bs)) ≡ file)
transfer-accepted_example =
    transfer-accepted receiver (codes "f") file accepts (unfold header_data in omega arith)
