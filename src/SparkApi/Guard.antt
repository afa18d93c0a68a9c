-- ===== src/SparkApi/Guard.antt =====
-- When the API refuses a call.
use brewblox_devcon_spark.Base.{
  ◌≡◌, refl, Bool, true, false, ◌||◌, List, Option, none, some, Text, if◌then◌else◌, Bool-cases,
  inl, inr,
}
use brewblox_devcon_spark.Base.Exn.{Exn, Result, ok, err, update_in_progress, not_connected}
use brewblox_devcon_spark.StateMachine.{StateMachine, check_compatible}
use brewblox_devcon_spark.SparkApi.{Env, Api, Block}
use brewblox_devcon_spark.SparkApi.Actions.{Act, ◌>>=◌, done, execute, compatible, watched}
use brewblox_devcon_spark.SparkApi.Calls as Calls

-- A call of the API, but `rename_block` and `load_block_names`.
pub data Call : Type 0 where
  noop read_all_blocks read_all_logged_blocks read_all_stored_blocks discover_blocks : Call
  clear_blocks clear_wifi factory_reset reboot : Call
  read_block read_logged_block read_stored_block : Block → Call
  write_block patch_block create_block delete_block validate : Block → Call
  make_backup : Text → Call
  apply_backup : List Block → Call

-- Why a call is refused, if it is.
compatible_or : Result Bool → Option Exn → Option Exn
compatible_or (err e) later = some e
compatible_or (ok b) later = later

unfoldable pub refusal : Bool → StateMachine → Option Exn
unfolding compatible_or
refusal in_time state =
    if state.updating_ev
    then some update_in_progress
    else compatible_or (check_compatible state)
        (if state.synchronized_ev || in_time then none else some not_connected)

module _ {S W : Type 0} where
  checked-refused :
      {A : Type 0} (in_time : Bool) (body : Act S W A) (s : Api S W) (e : Exn) (r : Result Bool)
      → compatible_or r (if s.state.synchronized_ev || in_time then none else some not_connected)
        ≡ some e
      → compatible r
          (λ t.
            if t.state.synchronized_ev || in_time then watched (body t) else (err not_connected, t))
          s
        ≡ (err e, s)
  unfolding compatible_or compatible
  checked-refused in_time body s e (err x) h = let same : x ≡ e = cc in rw same refl
  checked-refused in_time body s e (ok b) h =
      elim (Bool-cases (s.state.synchronized_ev || in_time)) [
        | inl up ↦ let no : none ≡ some e = rw (← h, up) refl in cc
        | inr down ↦
            let same : some not_connected ≡ some e = rw (← h, down) refl in
            let e_is : not_connected ≡ e = cc in rw (down, ← e_is) refl
      ]

  updating-refused :
      {A : Type 0} (updating : Bool) (s : Api S W) (e : Exn) (later : Option Exn)
      (rest : Result A × Api S W)
      → (if updating then some update_in_progress else later) ≡ some e
      → (later ≡ some e → rest ≡ (err e, s))
      → (if updating then (err update_in_progress, s) else rest) ≡ (err e, s)
  updating-refused true s e later rest h k = let same : update_in_progress ≡ e = cc in rw same refl
  updating-refused false s e later rest h k = k h

  execute-refused :
      {A : Type 0} (in_time : Bool) (body : Act S W A) (s : Api S W) (e : Exn)
      → refusal in_time s.state ≡ some e
      → execute in_time body s ≡ (err e, s)
  unfolding execute refusal
  execute-refused in_time body s e h =
      updating-refused s.state.updating_ev s e _ _ h
        (checked-refused in_time body s e (check_compatible s.state))

  forget : {A : Type 0} → Act S W A → Act S W (Unit {0})
  forget act = act >>= (λ a. done tt)

  pub perform : Env S W → Bool → Call → Act S W (Unit {0})
  unfolding forget
  perform env t noop = Calls.noop env t
  perform env t read_all_blocks = forget (Calls.read_all_blocks env t)
  perform env t read_all_logged_blocks = forget (Calls.read_all_logged_blocks env t)
  perform env t read_all_stored_blocks = forget (Calls.read_all_stored_blocks env t)
  perform env t discover_blocks = forget (Calls.discover_blocks env t)
  perform env t clear_blocks = forget (Calls.clear_blocks env t)
  perform env t clear_wifi = Calls.clear_wifi env t
  perform env t factory_reset = Calls.factory_reset env t
  perform env t reboot = Calls.reboot env t
  perform env t (read_block block) = forget (Calls.read_block env t block)
  perform env t (read_logged_block block) = forget (Calls.read_logged_block env t block)
  perform env t (read_stored_block block) = forget (Calls.read_stored_block env t block)
  perform env t (write_block block) = forget (Calls.write_block env t block)
  perform env t (patch_block block) = forget (Calls.patch_block env t block)
  perform env t (create_block block) = forget (Calls.create_block env t block)
  perform env t (delete_block block) = forget (Calls.delete_block env t block)
  perform env t (validate block) = forget (Calls.validate env t block)
  perform env t (make_backup timestamp) = forget (Calls.make_backup env t timestamp)
  perform env t (apply_backup blocks) = forget (Calls.apply_backup env t blocks)

  -- While a firmware update is in progress, the controller is not compatible, or the state is not
  -- synchronized in time, every call of the API but `rename_block` and `load_block_names` raises the
  -- error for that, in this order, sends no command, and changes nothing.
  pub perform-refused :
      (env : Env S W) (in_time : Bool) (c : Call) (s : Api S W) (e : Exn)
      → refusal in_time s.state ≡ some e
      → perform env in_time c s ≡ (err e, s)
  unfolding perform forget Calls.noop Calls.clear_wifi Calls.factory_reset Calls.reboot
      Calls.read_all_blocks Calls.read_all_logged_blocks Calls.read_all_stored_blocks
      Calls.discover_blocks Calls.clear_blocks Calls.read_block Calls.read_logged_block
      Calls.read_stored_block Calls.write_block Calls.patch_block Calls.create_block
      Calls.delete_block Calls.make_backup Calls.apply_backup Calls.validate
  perform-refused env t noop s e h = execute-refused t _ s e h
  perform-refused env t clear_wifi s e h = execute-refused t _ s e h
  perform-refused env t factory_reset s e h = execute-refused t _ s e h
  perform-refused env t reboot s e h = execute-refused t _ s e h
  perform-refused env t read_all_blocks s e h = rw (execute-refused t _ s e h) refl
  perform-refused env t read_all_logged_blocks s e h = rw (execute-refused t _ s e h) refl
  perform-refused env t read_all_stored_blocks s e h = rw (execute-refused t _ s e h) refl
  perform-refused env t discover_blocks s e h = rw (execute-refused t _ s e h) refl
  perform-refused env t clear_blocks s e h = rw (execute-refused t _ s e h) refl
  perform-refused env t (read_block b) s e h = rw (execute-refused t _ s e h) refl
  perform-refused env t (read_logged_block b) s e h = rw (execute-refused t _ s e h) refl
  perform-refused env t (read_stored_block b) s e h = rw (execute-refused t _ s e h) refl
  perform-refused env t (write_block b) s e h = rw (execute-refused t _ s e h) refl
  perform-refused env t (patch_block b) s e h = rw (execute-refused t _ s e h) refl
  perform-refused env t (create_block b) s e h = rw (execute-refused t _ s e h) refl
  perform-refused env t (delete_block b) s e h = rw (execute-refused t _ s e h) refl
  perform-refused env t (validate b) s e h = rw (execute-refused t _ s e h) refl
  perform-refused env t (make_backup b) s e h = rw (execute-refused t _ s e h) refl
  perform-refused env t (apply_backup b) s e h = rw (execute-refused t _ s e h) refl
