-- ===== src/MqttConnection/History.antt =====
-- What was delivered was received: no message mixes chunks of two, or leaves one out.
use brewblox_devcon_spark.Base.{
  ℕ, suc, ◌+◌, ◌≡◌, ◌↔◌, sym, inl, inr, true, List, [], ◌∷◌, ◌++◌, Option, none, some, Text, length,
  append_assoc, append-nil, arith, Bool-cases, Option-cases,
}
use brewblox_devcon_spark.Base.Exn.{ok, err, attribute_error}
use brewblox_devcon_spark.Base.Str.{ℤ, pos, contains, rstrip, concat, int_eq, int_eq→eq}
use brewblox_devcon_spark.MqttConnection.{
  MqttConnection, Payload, Received, init, parse_payload, add_chunk, reset_recv_buffer, resp_cb,
}

-- The states after a history of payloads, oldest first.
pub data Reach : List (Option Text) → MqttConnection → Type 0 where
  start : Reach [] init
  step :
      (history : List (Option Text)) (s : MqttConnection) (payload : Option Text) (r : Received)
      → Reach history s
      → resp_cb payload s ≡ ok r
      → Reach (history ++ payload ∷ []) r.state

-- Payloads of one message, with the chunks numbered from `k`.
pub data Numbered (id : ℤ) : ℕ → List (Option Text) → List Text → Type 0 where
  nil : (k : ℕ) → Numbered id k [] []
  cons :
      (k : ℕ) (payload : Option Text) (chunk : Text) (payloads : List (Option Text))
      (chunks : List Text)
      → parse_payload payload ≡ some (record { msg_id = id; chunk_idx = pos k; chunk = chunk })
      → Numbered id (suc k) payloads chunks
      → Numbered id k (payload ∷ payloads) (chunk ∷ chunks)

Numbered-concat :
    (id : ℤ) (k : ℕ) (payload : Option Text) (chunk : Text) {ps : List (Option Text)}
    {cs : List Text}
    → Numbered id k ps cs
    → parse_payload payload
      ≡ some (record { msg_id = id; chunk_idx = pos (k + length cs); chunk = chunk })
    → Numbered id k (ps ++ payload ∷ []) (cs ++ chunk ∷ [])
Numbered-concat id k payload chunk (nil _) p =
    let e : k + 0 ≡ k = omega arith in cons k payload chunk [] [] (rw e at p) (nil (suc k))
Numbered-concat id k payload chunk (cons _ q c ps cs e n) p =
    let shift : k + suc (length cs) ≡ suc k + length cs = omega arith in
    cons k q c (ps ++ payload ∷ []) (cs ++ chunk ∷ []) e
      (Numbered-concat id (suc k) payload chunk n (rw shift at p))

-- The chunks are those of the last payloads of the history, all of one message, from its first.
pub record IsSuffix (history : List (Option Text)) (id : ℤ) (chunks : List Text) : Type 0 where
  pub front : List (Option Text)
  pub tail : List (Option Text)
  pub whole : history ≡ front ++ tail
  pub numbered : Numbered id 0 tail chunks

abbrev Holds : List (Option Text) → MqttConnection → Type 0
Holds history s =
    (chunks : List Text) → s.recv_chunks ≡ some chunks → IsSuffix history s.recv_msg_id chunks

empty-IsSuffix : (history : List (Option Text)) (id : ℤ) → IsSuffix history id []
empty-IsSuffix history id = record {
  front = history;
  tail = [];
  whole = sym (append-nil history);
  numbered = nil 0;
}

-- One more chunk with the next number.
IsSuffix-concat :
    (history : List (Option Text)) (payload : Option Text) (p : Payload) (chunks : List Text)
    → parse_payload payload ≡ some p
    → int_eq (pos (length chunks)) p.chunk_idx ≡ true
    → IsSuffix history p.msg_id chunks
    → IsSuffix (history ++ payload ∷ []) p.msg_id (chunks ++ p.chunk ∷ [])
IsSuffix-concat history payload p chunks e i s =
    let same = int_eq→eq _ _ i in
    record {
      front = s.front;
      tail = s.tail ++ payload ∷ [];
      whole = rw s.whole (append_assoc s.front s.tail (payload ∷ []));
      numbered = Numbered-concat p.msg_id 0 payload p.chunk s.numbered (ground (arith, e, same));
    }

-- What one call gives, from the chunks that it adds to.
record Good (history : List (Option Text)) (r : Received) : Type 0 where
  holds : Holds history r.state
  delivered :
      (t : Text)
      → r.response ≡ some t
      → (id : ℤ) × (chunks : List Text) × IsSuffix history id chunks × (t ≡ rstrip (concat chunks))

idle-Holds :
    (history : List (Option Text)) (s : MqttConnection)
    → Holds history (reset_recv_buffer (pos 0) s)
unfolding reset_recv_buffer
idle-Holds history s chunks e =
    let same : [] ≡ chunks = cc in rw (← same) (empty-IsSuffix history (pos 0))

add_chunk-Good :
    (history : List (Option Text)) (payload : Option Text) (p : Payload) (chunks : List Text)
    → parse_payload payload ≡ some p
    → IsSuffix history p.msg_id chunks
    → Good (history ++ payload ∷ []) (add_chunk p chunks)
unfolding add_chunk
add_chunk-Good history payload p chunks e s =
    elim (Bool-cases (int_eq (pos (length chunks)) p.chunk_idx)) [
      | inr i ↦ rw i (record { holds = idle-Holds _ _; delivered = λ t h. cc })
      | inl i ↦
          let longer = IsSuffix-concat history payload p chunks e i s in
          elim (Bool-cases (contains b'\n' p.chunk)) [
            | inl c ↦
                rw (i, c)
                  (record {
                    holds = idle-Holds _ _;
                    delivered = λ t h. (p.msg_id, chunks ++ p.chunk ∷ [], longer, cc);
                  })
            | inr c ↦
                rw (i, c)
                  (record {
                    holds =
                        λ cs h. let same : chunks ++ p.chunk ∷ [] ≡ cs = cc in rw (← same) longer;
                    delivered = λ t h. cc;
                  })
          ]
    ]

with_chunks-Good :
    (history : List (Option Text)) (s : MqttConnection) (payload : Option Text) (r : Received)
    → Holds history s
    → resp_cb payload s ≡ ok r
    → Good (history ++ payload ∷ []) r
unfolding resp_cb
with_chunks-Good history s payload r h e = elim (Option-cases (parse_payload payload)) [
  | inl n ↦
      let same : record { state = reset_recv_buffer (pos 0) s; response = none } ≡ r =
        cc (rw n at e) in
      rw (← same) (record { holds = idle-Holds _ _; delivered = λ t k. cc })
  | inr (p, q) ↦ elim (Bool-cases (int_eq p.msg_id s.recv_msg_id)) [
    | inr other ↦
        let same : add_chunk p [] ≡ r = ground (arith, q, other, e) in
        rw (← same) (add_chunk-Good history payload p [] q (empty-IsSuffix history p.msg_id))
    | inl current ↦ elim (Option-cases s.recv_chunks) [
      | inl n ↦ absurd (ground (arith, q, current, e, n))
      | inr (chunks, n) ↦
          let id = int_eq→eq p.msg_id s.recv_msg_id current in
          let same : add_chunk p chunks ≡ r = ground (arith, q, current, e, n) in
          rw (← same) (add_chunk-Good history payload p chunks q (rw id (h chunks n)))
    ]
  ]
]

Reach-Holds :
    (history : List (Option Text)) (s : MqttConnection) → Reach history s → Holds history s
Reach-Holds history s start = λ chunks e. cc
Reach-Holds history s (step before t payload r reach e) =
    (with_chunks-Good before t payload r (Reach-Holds before t reach) e).holds

-- Whatever payloads arrive, in whatever order, a delivered message is made of the chunks of the
-- most recent payloads, all with one message number and numbered 0, 1, 2 and so on without a gap,
-- joined and stripped on the right.
pub response-IsSuffix :
    (history : List (Option Text)) (s : MqttConnection) (payload : Option Text) (r : Received)
    (t : Text)
    → Reach history s
    → resp_cb payload s ≡ ok r
    → r.response ≡ some t
    → (id : ℤ) × (chunks : List Text) × IsSuffix (history ++ payload ∷ []) id chunks
      × (t ≡ rstrip (concat chunks))
response-IsSuffix history s payload r t reach e =
    (with_chunks-Good history s payload r (Reach-Holds history s reach) e).delivered t

-- A new connection has no list of chunks until its first reset: a first payload that parses makes
-- the callback fail exactly if its message number is 0, whatever its chunk.
pub resp_cb_first_zero :
    (payload : Option Text) (p : Payload)
    → parse_payload payload ≡ some p
    → (resp_cb payload init ≡ err attribute_error) ↔ (p.msg_id ≡ pos 0)
unfolding resp_cb int_eq
resp_cb_first_zero payload p e =
    (λ h. int_eq→eq p.msg_id (pos 0) (ground (arith, e, h)), λ h. rw (e, h))
