-- ===== src/MqttConnection/Messages.antt =====
-- A message that arrives in order is delivered whole and once.
use brewblox_devcon_spark.Base.{
  ℕ, suc, ◌≡◌, refl, ◌∙◌, ◌⊎◌, inl, inr, true, false, List, [], ◌∷◌, ◌++◌, Option, none, some, Text,
  length, length-append, append_assoc, arith, Bool-cases,
}
use brewblox_devcon_spark.Base.Exn.{Result, ok, ◌>>=◌}
use brewblox_devcon_spark.Base.Str.{ℤ, pos, contains, rstrip, concat, int_eq, int_eq_refl}
use brewblox_devcon_spark.MqttConnection.{
  MqttConnection, Payload, parse_payload, add_chunk, reset_recv_buffer, resp_cb,
}

or_none : Option Text → List Text
or_none none = []
or_none (some t) = t ∷ []

-- All payloads in order: the messages that are delivered, and the state. An error of the callback
-- ends it.
unfoldable pub deliver : List (Option Text) → MqttConnection → Result (List Text × MqttConnection)
unfolding or_none
deliver [] s = ok ([], s)
deliver (payload ∷ rest) s =
    resp_cb payload s
    >>= (λ r. deliver rest r.state >>= (λ more. ok (or_none r.response ++ more.0, more.1)))

abbrev part : ℤ → ℕ → Text → Payload
part id k chunk = record { msg_id = id; chunk_idx = pos k; chunk = chunk }

-- Payloads as the controller sends a message: numbered from `k`, the separator in the last chunk.
pub data Sent (id : ℤ) : ℕ → List (Option Text) → List Text → Type 0 where
  last :
      (k : ℕ) (payload : Option Text) (chunk : Text)
      → parse_payload payload ≡ some (part id k chunk)
      → contains b'\n' chunk ≡ true
      → Sent id k (payload ∷ []) (chunk ∷ [])
  more :
      (k : ℕ) (payload : Option Text) (chunk : Text) (payloads : List (Option Text))
      (chunks : List Text)
      → parse_payload payload ≡ some (part id k chunk)
      → contains b'\n' chunk ≡ false
      → Sent id (suc k) payloads chunks
      → Sent id k (payload ∷ payloads) (chunk ∷ chunks)

abbrev idle : MqttConnection
idle = record { recv_msg_id = pos 0; recv_chunks = some [] }

abbrev waiting : ℤ → List Text → MqttConnection
waiting id chunks = record { recv_msg_id = id; recv_chunks = some chunks }

-- What the callback does with a chunk that has the number of the next one.
module _ (id : ℤ) (chunks : List Text) (payload : Option Text) (chunk : Text) where
  resp_cb_last :
      parse_payload payload ≡ some (part id (length chunks) chunk)
      → contains b'\n' chunk ≡ true
      → resp_cb payload (waiting id chunks)
        ≡ ok (record { state = idle; response = some (rstrip (concat (chunks ++ chunk ∷ []))) })
  unfolding resp_cb add_chunk reset_recv_buffer int_eq
  resp_cb_last p c = rw (p, int_eq_refl id) (ground arith)

  resp_cb_more :
      parse_payload payload ≡ some (part id (length chunks) chunk)
      → contains b'\n' chunk ≡ false
      → resp_cb payload (waiting id chunks)
        ≡ ok (record { state = waiting id (chunks ++ chunk ∷ []); response = none })
  unfolding resp_cb add_chunk reset_recv_buffer int_eq
  resp_cb_more p c = rw (p, int_eq_refl id) (ground arith)

deliver-Sent :
    (id : ℤ) (k : ℕ) (payloads : List (Option Text)) (before chunks : List Text)
    → length before ≡ k
    → Sent id k payloads chunks
    → deliver payloads (waiting id before) ≡ ok (rstrip (concat (before ++ chunks)) ∷ [], idle)
unfolding deliver
deliver-Sent id k payloads before chunks e (last _ payload chunk p c) =
    rw (resp_cb_last id before payload chunk (rw e p) c)
deliver-Sent id k payloads before chunks e (more _ payload chunk rest cs p c s) = rw (
  resp_cb_more id before payload chunk (rw e p) c,
  deliver-Sent id (suc k) rest (before ++ chunk ∷ []) cs
      (omega (arith, length-append before (chunk ∷ []))) s,
  append_assoc before (chunk ∷ []),
)

-- The first chunk of a message, where the buffer is empty or holds chunks of another message.
resp_cb_first :
    (id : ℤ) (s : MqttConnection) (payload : Option Text) (k : ℕ) (chunk : Text)
    → (int_eq id s.recv_msg_id ≡ false) ⊎ (s.recv_chunks ≡ some [])
    → parse_payload payload ≡ some (part id k chunk)
    → resp_cb payload s ≡ resp_cb payload (waiting id [])
unfolding resp_cb
resp_cb_first id s payload k chunk (inl e) p = rw p (rw (e, int_eq_refl id))
resp_cb_first id s payload k chunk (inr e) p = elim (Bool-cases (int_eq id s.recv_msg_id)) [
  | inl h ↦ rw p (rw (h, int_eq_refl id, e))
  | inr h ↦ rw p (rw (h, int_eq_refl id))
]

-- A message whose chunks arrive complete and in order, the separator in the last one only, is
-- delivered exactly once, as all its chunks joined and stripped on the right, and leaves the buffer
-- idle; if the buffer was empty before, or held chunks of a message with another number.
pub deliver_message :
    (id : ℤ) (s : MqttConnection) (payloads : List (Option Text)) (chunks : List Text)
    → (int_eq id s.recv_msg_id ≡ false) ⊎ (s.recv_chunks ≡ some [])
    → Sent id 0 payloads chunks
    → deliver payloads s ≡ ok (rstrip (concat chunks) ∷ [], idle)
deliver_message id s payloads chunks h sent =
    first sent ∙ deliver-Sent id 0 payloads [] chunks refl sent
  where
    first :
        {ps : List (Option Text)} {cs : List Text}
        → Sent id 0 ps cs
        → deliver ps s ≡ deliver ps (waiting id [])
    first (last k payload chunk p c) = unfold deliver in rw (resp_cb_first id s payload k chunk h p)
    first (more k payload chunk rest cs p c t) =
        unfold deliver in rw (resp_cb_first id s payload k chunk h p)
