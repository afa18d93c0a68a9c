-- ===== src/MockConnection/Handlers/Refusals.antt =====
-- connection/mock_connection.py: a response with an error changes no block.
use brewblox_devcon_spark.Base.{
  ℕ, ◌++◌, not, ◌&&◌, List, [], ◌∷◌, Option, none, some, Text, ltb, ◌==◌, if◌then◌else◌, ◌≡◌, refl,
  sym, ap, ◌∙◌, ◌⊎◌, inl, inr,
}
use brewblox_devcon_spark.Base.Exn.{Result, ok, err, >>=-eq-ok}
use brewblox_devcon_spark.Base.Table.{find, remove}
use brewblox_devcon_spark.Base.Json.{end}
use brewblox_devcon_spark.Models.Messages.{
  EncodedPayload, Opcode, ErrorCode, IntermediateRequest, IntermediateResponse,
}
use brewblox_devcon_spark.Command.{Codec}
use brewblox_devcon_spark.Models.Config.{user_nid_start}
use brewblox_devcon_spark.MockConnection.{
  MockConnection, Block, Step, Reply, Clock, ◌then◌, done, lift, refuse, block_at, update_block,
  is_type_name, has_name, is_taken, named,
}
use brewblox_devcon_spark.MockConnection.Handlers.{
  to_payloads, to_block, update_systime, dispatch, handle_errors, handle_command, respond,
  reply_with, with_block, with_payload, read, read_all, merge_in, write, new_nid, store, insert,
  create, create_at, delete, discover, rename, accepted, reboot, reset_blocks, clear_blocks,
  clear_wifi, factory_reset, greet,
}
use brewblox_devcon_spark.MockConnection.Handlers.Replies.{
  Accepts, Refuses, Accepts-Refuses, pure-Refuses, pure-Accepts, at-Accepts, at-Refuses,
  then-Accepts, then_reply-Accepts, done-Accepts, after-Accepts, if-Refuses,
}

module _ (codec : Codec) (clock : Clock) (welcome : Text) where
  reply_with-Accepts : (bs : List Block) → Accepts (reply_with codec clock welcome bs)
  unfolding reply_with Accepts
  reply_with-Accepts bs c r is =
      let (ps, _, is) =
        >>=-eq-ok (to_payloads codec clock welcome bs) (λ ps. ok (ErrorCode.ok, ps)) is in
      let same : (ErrorCode.ok, ps) ≡ r = cc in ap (λ q. q.0) (sym same)

  found-Refuses :
      (o : Option Block) (f : Block → Step Reply)
      → ((b : Block) → Refuses (f b))
      → Refuses (λ c. elim o [ none ↦ refuse ErrorCode.invalid_block_id c | some b ↦ f b c ])
  found-Refuses none f later = pure-Refuses (ok (ErrorCode.invalid_block_id, []))
  found-Refuses (some b) f later = later b

  with_block-Refuses :
      (nid : ℕ) (f : Block → Step Reply)
      → ((b : Block) → Refuses (f b))
      → Refuses (with_block codec clock welcome nid f)
  unfolding with_block
  with_block-Refuses nid f later =
      at-Refuses
        (λ d c. elim (find nid d.blocks) [
          | none ↦ refuse ErrorCode.invalid_block_id c
          | some b ↦ f b c
        ])
        λ d. found-Refuses (find nid d.blocks) f later

  with_payload-Refuses :
      (p : Option EncodedPayload) (f : EncodedPayload → Step Reply)
      → ((q : EncodedPayload) → Refuses (f q))
      → Refuses (with_payload codec clock welcome p f)
  unfolding with_payload
  with_payload-Refuses none f later = pure-Refuses _
  with_payload-Refuses (some p) f later = later p

  read-Refuses : (nid : ℕ) → Refuses (read codec clock welcome nid)
  unfolding read
  read-Refuses nid = with_block-Refuses nid _ λ b. Accepts-Refuses _ (reply_with-Accepts (b ∷ []))

  read_all-Refuses : Refuses (read_all codec clock welcome)
  unfolding read_all
  read_all-Refuses =
      Accepts-Refuses _
        (at-Accepts (λ c. reply_with codec clock welcome _) λ c. reply_with-Accepts _)

  write-Refuses : (p : EncodedPayload) → Refuses (write codec clock welcome p)
  unfolding write
  write-Refuses p = with_block-Refuses p.block_id _ λ b.
      if-Refuses (is_type_name p.block_type b.type) _ _
        (Accepts-Refuses _ (
          then-Accepts (lift (to_block codec clock welcome p)) _ λ src.
            then-Accepts (merge_in codec clock welcome p.block_id b src) _
              λ merged. reply_with-Accepts (merged ∷ [])))
        (pure-Refuses _)

  insert-Accepts : (nid : ℕ) (p : EncodedPayload) → Accepts (insert codec clock welcome nid p)
  unfolding insert
  insert-Accepts nid p = then-Accepts (lift (to_block codec clock welcome p)) _ λ argblock.
      then-Accepts (lift _) _
        λ b. then-Accepts (store codec clock welcome nid b) _ λ _. reply_with-Accepts (b ∷ [])

  create_at-Refuses :
      (o : Option Block) (p : EncodedPayload) → Refuses (create_at codec clock welcome o p)
  unfolding create_at
  create_at-Refuses (some b) p = pure-Refuses _
  create_at-Refuses none p =
      if-Refuses (not (p.block_id == 0) && ltb p.block_id user_nid_start) _ _ (pure-Refuses _) (
        Accepts-Refuses _
          (then-Accepts (new_nid codec clock welcome p.block_id) _ λ nid. insert-Accepts nid p))

  create-Refuses : (p : EncodedPayload) → Refuses (create codec clock welcome p)
  unfolding create
  create-Refuses p =
      at-Refuses (λ d. create_at codec clock welcome (find p.block_id d.blocks) p)
        λ d. create_at-Refuses (find p.block_id d.blocks) p

  deleted-Accepts :
      (nid : ℕ) → Accepts (λ c. (ok (ErrorCode.ok, []), record c { blocks = remove nid c.blocks }))
  unfolding Accepts
  deleted-Accepts nid c r is = let same : (ErrorCode.ok, []) ≡ r = cc in ap (λ q. q.0) (sym same)

  delete-Refuses : (nid : ℕ) → Refuses (delete codec clock welcome nid)
  unfolding delete
  delete-Refuses nid = with_block-Refuses nid _ λ b.
      if-Refuses (ltb nid user_nid_start) _ _ (pure-Refuses _)
        (Accepts-Refuses _ (deleted-Accepts nid))

  discover-Refuses : Refuses (discover codec clock welcome)
  unfolding discover
  discover-Refuses = Accepts-Refuses _ (
      at-Accepts (λ d. lift (block_at 19 d) then (λ b. reply_with codec clock welcome (b ∷ [])))
        λ d. then-Accepts (lift (block_at 19 d)) _ (λ b. reply_with-Accepts (b ∷ [])))

  rename-Refuses : (p : EncodedPayload) → Refuses (rename codec clock welcome p)
  unfolding rename
  rename-Refuses p =
      at-Refuses (λ d. with_block codec clock welcome p.block_id _)
        λ d. with_block-Refuses p.block_id _ λ b.
          if-Refuses (not (has_name p.name)) _ _ (pure-Refuses _) (
            if-Refuses (is_taken (named p.name d.blocks) p.block_id) _ _ (pure-Refuses _) (
              Accepts-Refuses _ (
                then-Accepts (store codec clock welcome p.block_id (record b { id = p.name })) _
                  λ _. reply_with-Accepts (record b { id = p.name } ∷ []))))

  accepted-Accepts : Accepts (accepted codec clock welcome)
  unfolding accepted
  accepted-Accepts = pure-Accepts []

  reboot-Accepts : (now : ℕ) → Accepts (reboot codec clock welcome now)
  unfolding reboot
  reboot-Accepts now =
      after-Accepts
        (update_systime codec clock welcome now then (λ _. accepted codec clock welcome))
        (λ c. record c { start_time = now })
        (then-Accepts (update_systime codec clock welcome now) _ λ _. accepted-Accepts)

  clear_blocks-Accepts : (now : ℕ) → Accepts (clear_blocks codec clock welcome now)
  unfolding clear_blocks
  clear_blocks-Accepts now =
      at-Accepts
        (λ d.
          reply_with codec clock welcome _
          then (λ r. reset_blocks codec clock welcome now then (λ _. done r)))
        λ d.
          then_reply-Accepts (reply_with codec clock welcome _) _ (reply_with-Accepts _)
            λ r is. then-Accepts (reset_blocks codec clock welcome now) _ λ _. done-Accepts r is

  clear_wifi-Accepts : Accepts (clear_wifi codec clock welcome)
  unfolding clear_wifi
  clear_wifi-Accepts =
      at-Accepts
        (λ d. update_block (λ fs. end) (block_at 5 d) 5 then (λ _. accepted codec clock welcome))
        λ d. then-Accepts (update_block (λ fs. end) (block_at 5 d) 5) _ λ _. accepted-Accepts

  factory_reset-Accepts : (now : ℕ) → Accepts (factory_reset codec clock welcome now)
  unfolding factory_reset
  factory_reset-Accepts now =
      then-Accepts (reset_blocks codec clock welcome now) _ λ _. accepted-Accepts

  greet-Accepts : Accepts (greet codec clock welcome)
  unfolding greet
  greet-Accepts =
      after-Accepts (accepted codec clock welcome)
        (λ c. record c { events = c.events ++ welcome ∷ [] }) accepted-Accepts

  dispatch-Refuses :
      (op : Opcode) (p : Option EncodedPayload) (now : ℕ)
      → Refuses (dispatch codec clock welcome op p now)
  unfolding dispatch
  dispatch-Refuses Opcode.none p now = Accepts-Refuses _ greet-Accepts
  dispatch-Refuses Opcode.version p now = Accepts-Refuses _ greet-Accepts
  dispatch-Refuses Opcode.block_read p now = with_payload-Refuses p _ λ q. read-Refuses q.block_id
  dispatch-Refuses Opcode.storage_read p now = with_payload-Refuses p _ λ q. read-Refuses q.block_id
  dispatch-Refuses Opcode.name_read p now = with_payload-Refuses p _ λ q. read-Refuses q.block_id
  dispatch-Refuses Opcode.block_read_all p now = read_all-Refuses
  dispatch-Refuses Opcode.storage_read_all p now = read_all-Refuses
  dispatch-Refuses Opcode.name_read_all p now = read_all-Refuses
  dispatch-Refuses Opcode.block_write p now = with_payload-Refuses p _ write-Refuses
  dispatch-Refuses Opcode.block_create p now = with_payload-Refuses p _ create-Refuses
  dispatch-Refuses Opcode.block_delete p now =
      with_payload-Refuses p _ λ q. delete-Refuses q.block_id
  dispatch-Refuses Opcode.block_discover p now = discover-Refuses
  dispatch-Refuses Opcode.name_write p now = with_payload-Refuses p _ rename-Refuses
  dispatch-Refuses Opcode.reboot p now = Accepts-Refuses _ (reboot-Accepts now)
  dispatch-Refuses Opcode.clear_blocks p now = Accepts-Refuses _ (clear_blocks-Accepts now)
  dispatch-Refuses Opcode.clear_wifi p now = Accepts-Refuses _ clear_wifi-Accepts
  dispatch-Refuses Opcode.factory_reset p now = Accepts-Refuses _ (factory_reset-Accepts now)
  dispatch-Refuses Opcode.firmware_update p now = Accepts-Refuses _ accepted-Accepts

  respond-error :
      (request : IntermediateRequest) (q : Reply)
      → (respond codec clock welcome request q).error ≡ q.0
  unfolding respond
  respond-error request (error, ps) = refl

  -- A response that is made of a reply.
  abbrev responded :
      IntermediateRequest
      → Result Reply
      → MockConnection
      → Result (Option IntermediateResponse) × MockConnection
  responded request r d = elim r [
    | err e ↦ (err e, d)
    | ok a ↦ done (some (respond codec clock welcome request a)) d
  ]

  responded-error :
      (request : IntermediateRequest) (r : Result Reply) (d c : MockConnection)
      → (response : IntermediateResponse)
      → ((q : Reply) → r ≡ ok q → (q.0 ≡ ErrorCode.ok) ⊎ (d.blocks ≡ c.blocks))
      → (responded request r d).0 ≡ ok (some response)
      → (response.error ≡ ErrorCode.ok) ⊎ ((responded request r d).1.blocks ≡ c.blocks)
  responded-error request (err e) d c response each is = cc
  responded-error request (ok q) d c response each is =
      let made : respond codec clock welcome request q ≡ response = cc in
      elim (each q refl) [
        | inl fine ↦ inl (ap (λ r. r.error) (sym made) ∙ respond-error request q ∙ fine)
        | inr same ↦ inr same
      ]

  handle_errors-Refuses :
      (errors : List (Option ErrorCode)) (request : IntermediateRequest) (now : ℕ)
      → (c : MockConnection) (response : IntermediateResponse)
      → (handle_errors codec clock welcome errors request now c).0 ≡ ok (some response)
      → (response.error ≡ ErrorCode.ok)
        ⊎ ((handle_errors codec clock welcome errors request now c).1.blocks ≡ c.blocks)
  unfolding handle_errors Refuses
  handle_errors-Refuses [] request now c response is =
      let reply = dispatch codec clock welcome request.opcode request.payload now c in
      responded-error request reply.0 reply.1 c response
        (dispatch-Refuses request.opcode request.payload now c) is
  handle_errors-Refuses (none ∷ errors) request now c response is = inr refl
  handle_errors-Refuses (some error ∷ errors) request now c response is = inr refl

  -- When `handle_command` answers a request with an error, one that was injected or one of the
  -- command, every block is as it was.
  pub handle_command-Refuses :
      (request : IntermediateRequest) (now : ℕ) (c : MockConnection)
      (response : IntermediateResponse)
      → (handle_command codec clock welcome request now c).0 ≡ ok (some response)
      → (response.error ≡ ErrorCode.ok)
        ⊎ ((handle_command codec clock welcome request now c).1.blocks ≡ c.blocks)
  unfolding handle_command
  handle_command-Refuses request now c response is =
      handle_errors-Refuses c.next_error request now c response is
