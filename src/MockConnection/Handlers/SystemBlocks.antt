-- ===== src/MockConnection/Handlers/SystemBlocks.antt =====
-- connection/mock_connection.py: the system blocks stay in the table.
use brewblox_devcon_spark.Base.{
  ◌++◌, ℕ, not, ◌&&◌, List, [], ◌∷◌, Option, none, some, Text, ltb, ◌==◌, if◌then◌else◌, ◌≡◌, refl,
  arith, inl, inr, Bool-cases,
}
use brewblox_devcon_spark.Base.Exn.{ok, ◌>>=◌}
use brewblox_devcon_spark.Base.Table.{find}
use brewblox_devcon_spark.Base.Json.{end}
use brewblox_devcon_spark.Models.Messages.{EncodedPayload, Opcode, ErrorCode, IntermediateRequest}
use brewblox_devcon_spark.Command.{Codec}
use brewblox_devcon_spark.Models.Config.{user_nid_start}
use brewblox_devcon_spark.MockConnection.{
  MockConnection, Block, Step, Reply, Clock, ◌then◌, done, lift, refuse, block_at, block_at-find,
  default_blocks, merge_blocks, update_block, init, is_type_name, has_name, is_taken, named,
}
use brewblox_devcon_spark.MockConnection.Handlers.{
  to_block, update_systime, dispatch, handle_errors, handle_command, send_request, run, respond,
  reply_with, with_block, with_payload, read, read_all, merge_in, write, new_nid, store, insert,
  create, create_at, delete, discover, rename, accepted, reboot, reset_blocks, clear_blocks,
  clear_wifi, factory_reset, greet,
}
use brewblox_devcon_spark.MockConnection.Handlers.Stays.{
  HasSystem, Stays, pure-Stays, put_block-Stays, at-Stays, after-Stays, then-Stays, if-Stays,
  update_block-Stays, update_block-ok, removed-Stays,
}

module _ (codec : Codec) (clock : Clock) (welcome : Text) where
  update_systime-Stays : (now : ℕ) → Stays (update_systime codec clock welcome now)
  unfolding update_systime
  update_systime-Stays now =
      at-Stays (λ c. update_block _ (block_at 2 c) 2) λ c. update_block-Stays _ (block_at 2 c) 2

  found-Stays :
      (o : Option Block) (f : Block → Step Reply)
      → ((b : Block) → Stays (f b))
      → Stays {A = Reply}
          (λ c. elim o [ none ↦ refuse ErrorCode.invalid_block_id c | some b ↦ f b c ])
  found-Stays none f later = pure-Stays (ok (ErrorCode.invalid_block_id, []))
  found-Stays (some b) f later = later b

  with_block-Stays :
      (nid : ℕ) (f : Block → Step Reply)
      → ((b : Block) → Stays (f b))
      → Stays (with_block codec clock welcome nid f)
  unfolding with_block
  with_block-Stays nid f later =
      at-Stays
        (λ d c. elim (find nid d.blocks) [
          | none ↦ refuse ErrorCode.invalid_block_id c
          | some b ↦ f b c
        ])
        λ d. found-Stays (find nid d.blocks) f later

  with_payload-Stays :
      (p : Option EncodedPayload) (f : EncodedPayload → Step Reply)
      → ((q : EncodedPayload) → Stays (f q))
      → Stays (with_payload codec clock welcome p f)
  unfolding with_payload
  with_payload-Stays none f later = pure-Stays _
  with_payload-Stays (some p) f later = later p

  reply_with-Stays : (bs : List Block) → Stays (reply_with codec clock welcome bs)
  unfolding reply_with
  reply_with-Stays bs = pure-Stays _

  read-Stays : (nid : ℕ) → Stays (read codec clock welcome nid)
  unfolding read
  read-Stays nid = with_block-Stays nid _ λ b. reply_with-Stays (b ∷ [])

  read_all-Stays : Stays (read_all codec clock welcome)
  unfolding read_all
  read_all-Stays = at-Stays (λ c. reply_with codec clock welcome _) λ c. reply_with-Stays _

  merge_in-Stays : (nid : ℕ) (src b : Block) → Stays (merge_in codec clock welcome nid b src)
  unfolding merge_in
  merge_in-Stays nid src b =
      put_block-Stays ((merge_blocks b src).0 >>= λ _. ok (merge_blocks b src).1) nid
        (merge_blocks b src).1

  write-Stays : (p : EncodedPayload) → Stays (write codec clock welcome p)
  unfolding write
  write-Stays p = with_block-Stays p.block_id _ λ b.
      if-Stays (is_type_name p.block_type b.type) _ _
        (then-Stays (lift (to_block codec clock welcome p)) _ (pure-Stays _) λ src.
          then-Stays (merge_in codec clock welcome p.block_id b src) _
            (merge_in-Stays p.block_id src b) λ merged. reply_with-Stays (merged ∷ []))
        (pure-Stays _)

  new_nid-Stays : (nid : ℕ) → Stays (new_nid codec clock welcome nid)
  unfolding new_nid Stays
  new_nid-Stays nid c h = elim (Bool-cases (nid == 0)) [ inl e ↦ rw e h | inr e ↦ rw e h ]

  store-Stays : (nid : ℕ) (b : Block) → Stays (store codec clock welcome nid b)
  unfolding store
  store-Stays nid b = put_block-Stays (ok tt) nid b

  insert-Stays : (nid : ℕ) (p : EncodedPayload) → Stays (insert codec clock welcome nid p)
  unfolding insert
  insert-Stays nid p =
      then-Stays (lift (to_block codec clock welcome p)) _ (pure-Stays _) λ argblock.
        then-Stays (lift _) _ (pure-Stays _) λ b.
          then-Stays (store codec clock welcome nid b) _ (store-Stays nid b)
            λ _. reply_with-Stays (b ∷ [])

  create_at-Stays :
      (o : Option Block) (p : EncodedPayload) → Stays (create_at codec clock welcome o p)
  unfolding create_at
  create_at-Stays (some b) p = pure-Stays _
  create_at-Stays none p =
      if-Stays (not (p.block_id == 0) && ltb p.block_id user_nid_start) _ _ (pure-Stays _) (
        then-Stays (new_nid codec clock welcome p.block_id) _ (new_nid-Stays p.block_id)
          (λ nid. insert-Stays nid p))

  create-Stays : (p : EncodedPayload) → Stays (create codec clock welcome p)
  unfolding create
  create-Stays p =
      at-Stays (λ d. create_at codec clock welcome (find p.block_id d.blocks) p)
        λ d. create_at-Stays (find p.block_id d.blocks) p

  delete-Stays : (nid : ℕ) → Stays (delete codec clock welcome nid)
  unfolding delete
  delete-Stays nid = with_block-Stays nid _ λ b. elim (Bool-cases (ltb nid user_nid_start)) [
    | inl e ↦ rw e (pure-Stays _)
    | inr e ↦ rw e (removed-Stays nid (ok (ErrorCode.ok, [])) (ground arith))
  ]

  discover-Stays : Stays (discover codec clock welcome)
  unfolding discover
  discover-Stays =
      at-Stays (λ d. lift (block_at 19 d) then (λ b. reply_with codec clock welcome (b ∷ [])))
        λ d. then-Stays (lift (block_at 19 d)) _ (pure-Stays _) (λ b. reply_with-Stays (b ∷ []))

  rename-Stays : (p : EncodedPayload) → Stays (rename codec clock welcome p)
  unfolding rename
  rename-Stays p =
      at-Stays (λ d. with_block codec clock welcome p.block_id _)
        λ d. with_block-Stays p.block_id _ λ b.
          if-Stays (not (has_name p.name)) _ _ (pure-Stays _) (
            if-Stays (is_taken (named p.name d.blocks) p.block_id) _ _ (pure-Stays _) (
              then-Stays (store codec clock welcome p.block_id (record b { id = p.name })) _
                (store-Stays p.block_id (record b { id = p.name }))
                λ _. reply_with-Stays (record b { id = p.name } ∷ [])))

  accepted-Stays : Stays (accepted codec clock welcome)
  unfolding accepted
  accepted-Stays = pure-Stays _

  reboot-Stays : (now : ℕ) → Stays (reboot codec clock welcome now)
  unfolding reboot
  reboot-Stays now =
      after-Stays (update_systime codec clock welcome now then (λ _. accepted codec clock welcome))
        (λ c. record c { start_time = now }) (λ c. refl)
        (then-Stays (update_systime codec clock welcome now) _ (update_systime-Stays now)
          λ _. accepted-Stays)

  reset_blocks-Stays : (now : ℕ) → Stays (reset_blocks codec clock welcome now)
  unfolding reset_blocks default_blocks find Stays
  reset_blocks-Stays now c h =
      update_systime-Stays now (record c { blocks = default_blocks })
        ((_, refl), (_, refl), (_, refl), (_, refl))

  clear_blocks-Stays : (now : ℕ) → Stays (clear_blocks codec clock welcome now)
  unfolding clear_blocks
  clear_blocks-Stays now =
      at-Stays
        (λ d.
          reply_with codec clock welcome _
          then (λ r. reset_blocks codec clock welcome now then (λ _. done r)))
        λ d. then-Stays (reply_with codec clock welcome _) _ (reply_with-Stays _) λ r.
          then-Stays (reset_blocks codec clock welcome now) _ (reset_blocks-Stays now)
            λ _. pure-Stays (ok r)

  clear_wifi-Stays : Stays (clear_wifi codec clock welcome)
  unfolding clear_wifi
  clear_wifi-Stays =
      at-Stays
        (λ d. update_block (λ fs. end) (block_at 5 d) 5 then (λ _. accepted codec clock welcome))
        λ d.
          then-Stays (update_block (λ fs. end) (block_at 5 d) 5) _
            (update_block-Stays (λ fs. end) (block_at 5 d) 5) λ _. accepted-Stays

  factory_reset-Stays : (now : ℕ) → Stays (factory_reset codec clock welcome now)
  unfolding factory_reset
  factory_reset-Stays now =
      then-Stays (reset_blocks codec clock welcome now) _ (reset_blocks-Stays now)
        λ _. accepted-Stays

  greet-Stays : Stays (greet codec clock welcome)
  unfolding greet
  greet-Stays =
      after-Stays (accepted codec clock welcome)
        (λ c. record c { events = c.events ++ welcome ∷ [] }) (λ c. refl) accepted-Stays

  dispatch-Stays :
      (op : Opcode) (p : Option EncodedPayload) (now : ℕ)
      → Stays (dispatch codec clock welcome op p now)
  unfolding dispatch
  dispatch-Stays Opcode.none p now = greet-Stays
  dispatch-Stays Opcode.version p now = greet-Stays
  dispatch-Stays Opcode.block_read p now = with_payload-Stays p _ λ q. read-Stays q.block_id
  dispatch-Stays Opcode.storage_read p now = with_payload-Stays p _ λ q. read-Stays q.block_id
  dispatch-Stays Opcode.name_read p now = with_payload-Stays p _ λ q. read-Stays q.block_id
  dispatch-Stays Opcode.block_read_all p now = read_all-Stays
  dispatch-Stays Opcode.storage_read_all p now = read_all-Stays
  dispatch-Stays Opcode.name_read_all p now = read_all-Stays
  dispatch-Stays Opcode.block_write p now = with_payload-Stays p _ write-Stays
  dispatch-Stays Opcode.block_create p now = with_payload-Stays p _ create-Stays
  dispatch-Stays Opcode.block_delete p now = with_payload-Stays p _ λ q. delete-Stays q.block_id
  dispatch-Stays Opcode.block_discover p now = discover-Stays
  dispatch-Stays Opcode.name_write p now = with_payload-Stays p _ rename-Stays
  dispatch-Stays Opcode.reboot p now = reboot-Stays now
  dispatch-Stays Opcode.clear_blocks p now = clear_blocks-Stays now
  dispatch-Stays Opcode.clear_wifi p now = clear_wifi-Stays
  dispatch-Stays Opcode.factory_reset p now = factory_reset-Stays now
  dispatch-Stays Opcode.firmware_update p now = accepted-Stays

  handle_errors-Stays :
      (errors : List (Option ErrorCode)) (request : IntermediateRequest) (now : ℕ)
      → Stays (handle_errors codec clock welcome errors request now)
  unfolding handle_errors
  handle_errors-Stays [] request now =
      then-Stays (dispatch codec clock welcome request.opcode request.payload now) _
        (dispatch-Stays request.opcode request.payload now) λ r. pure-Stays _
  handle_errors-Stays (none ∷ errors) request now =
      after-Stays (λ c. (ok none, c)) (λ c. record c { next_error = errors }) (λ c. refl)
        (pure-Stays (ok none))
  handle_errors-Stays (some error ∷ errors) request now =
      after-Stays (λ c. (ok (some (respond codec clock welcome request (error, []))), c))
        (λ c. record c { next_error = errors }) (λ c. refl) (pure-Stays _)

  send_request-Stays :
      (request : IntermediateRequest) (now : ℕ)
      → Stays (send_request codec clock welcome request now)
  unfolding send_request handle_command
  send_request-Stays request now =
      then-Stays (update_systime codec clock welcome now) _ (update_systime-Stays now) λ _.
        at-Stays (λ d. handle_errors codec clock welcome d.next_error request now)
          λ d. handle_errors-Stays d.next_error request now

  run-Stays :
      (requests : List (IntermediateRequest × ℕ)) (c : MockConnection)
      → HasSystem c
      → HasSystem (run codec clock welcome requests c)
  unfolding run Stays
  run-Stays [] c h = h
  run-Stays ((request, now) ∷ requests) c h =
      run-Stays requests _ (send_request-Stays request now c h)

  init-HasSystem : (start : ℕ) (errors : List (Option ErrorCode)) → HasSystem (init start errors)
  unfolding default_blocks find
  init-HasSystem start errors = ((_, refl), (_, refl), (_, refl), (_, refl))

  update_systime-ok :
      (now : ℕ) (c : MockConnection)
      → HasSystem c
      → (update_systime codec clock welcome now c).0 ≡ ok tt
  unfolding update_systime
  update_systime-ok now c ((b, is), _, _, _) =
      update_block-ok _ (block_at 2 c) b 2 c (block_at-find 2 c b is)

  -- Whatever requests and injected errors a new connection gets, also those that make it raise, the
  -- four system blocks stay in its table, and the next update of the system time finds its block.
  pub run-HasSystem :
      (start : ℕ) (errors : List (Option ErrorCode)) (requests : List (IntermediateRequest × ℕ))
      → (now : ℕ)
      → HasSystem (run codec clock welcome requests (init start errors))
        × ((update_systime codec clock welcome now
              (run codec clock welcome requests (init start errors))).0
            ≡ ok tt)
  run-HasSystem start errors requests now =
      let h = run-Stays requests (init start errors) (init-HasSystem start errors) in
      (h, update_systime-ok now _ h)
