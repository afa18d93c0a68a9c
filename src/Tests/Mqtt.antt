-- ===== src/Tests/Mqtt.antt =====
-- A message in two chunks: `7;0;ab` and `7;1;c` with the line end.
use brewblox_devcon_spark.Base.{◌≡◌, refl, ◌↔◌, inl, List, [], ◌∷◌, ◌++◌, Option, some, Text}
use brewblox_devcon_spark.Base.Exn.{ok, err, attribute_error}
use brewblox_devcon_spark.Base.Str.{ℤ, pos, contains, rstrip, concat, int_eq}
use brewblox_devcon_spark.MqttConnection.{
  MqttConnection, Received, init, parse_payload, resp_cb, add_chunk, reset_recv_buffer,
}
use brewblox_devcon_spark.MqttConnection.Messages.{deliver, last, more, deliver_message}
use brewblox_devcon_spark.MqttConnection.History.{
  start, IsSuffix, response-IsSuffix, resp_cb_first_zero,
}

abbrev first_chunk : Option Text
first_chunk = some (b'7' ∷ b';' ∷ b'0' ∷ b';' ∷ b'a' ∷ b'b' ∷ [])

abbrev second_chunk : Option Text
second_chunk = some (b'7' ∷ b';' ∷ b'1' ∷ b';' ∷ b'c' ∷ b'\n' ∷ [])

abbrev idle : MqttConnection
idle = record { recv_msg_id = pos 0; recv_chunks = some [] }

deliver_message_example :
    deliver (first_chunk ∷ second_chunk ∷ []) init
    ≡ ok (rstrip (concat ((b'a' ∷ b'b' ∷ []) ∷ (b'c' ∷ b'\n' ∷ []) ∷ [])) ∷ [], idle)
deliver_message_example =
    deliver_message (pos 7) init (first_chunk ∷ second_chunk ∷ [])
      ((b'a' ∷ b'b' ∷ []) ∷ (b'c' ∷ b'\n' ∷ []) ∷ []) (inl (unfold int_eq in refl))
      (more 0 first_chunk (b'a' ∷ b'b' ∷ []) (second_chunk ∷ []) ((b'c' ∷ b'\n' ∷ []) ∷ [])
        (unfold parse_payload in refl) (unfold contains in refl)
        (last 1 second_chunk (b'c' ∷ b'\n' ∷ []) (unfold parse_payload in refl)
          (unfold contains in refl)))

abbrev single : Option Text
single = some (b'7' ∷ b';' ∷ b'0' ∷ b';' ∷ b'c' ∷ b'\n' ∷ [])

abbrev delivered : Received
delivered = record { state = idle; response = some (b'c' ∷ []) }

response-IsSuffix_example :
    (id : ℤ) × (chunks : List Text) × IsSuffix ([] ++ single ∷ []) id chunks
    × ((b'c' ∷ []) ≡ rstrip (concat chunks))
unfolding parse_payload int_eq add_chunk contains reset_recv_buffer concat resp_cb
response-IsSuffix_example = response-IsSuffix [] init single delivered (b'c' ∷ []) start refl refl

abbrev zero_chunk : Option Text
zero_chunk = some (b'0' ∷ b';' ∷ b'0' ∷ b';' ∷ b'c' ∷ [])

resp_cb_first_zero_example : (resp_cb zero_chunk init ≡ err attribute_error) ↔ (pos 0 ≡ pos 0)
resp_cb_first_zero_example =
    resp_cb_first_zero zero_chunk (record { msg_id = pos 0; chunk_idx = pos 0; chunk = b'c' ∷ [] })
      (unfold parse_payload in refl)
