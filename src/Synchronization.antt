-- ===== src/Synchronization.antt =====
-- synchronization.py: the steps from the start of the service to the synchronized state. While a step
-- waits, other tasks run: what they do to the state machine is part of the environment.
pub mod Outcome
use brewblox_devcon_spark.Base.{
  ℕ, zero, suc, Bool, true, false, not, ◌&&◌, List, [], ◌∷◌, Option, none, some, String, Text,
  str_eq, if◌then◌else◌,
}
use brewblox_devcon_spark.Base.Exn.{
  Exn, Result, ok, err, ◌>>=◌, timeout_error, command_exception, incompatible_firmware,
  invalid_device_id, index_error, key_error, type_error,
}
use brewblox_devcon_spark.Base.Steps.{Stateful, ◌then◌, done, lift}
use brewblox_devcon_spark.Base.Json.{Json, text, object, Fields, end, field, subscript}
use brewblox_devcon_spark.Models.Messages.{FirmwareBlock}
use brewblox_devcon_spark.Command.Methods.{Method}
use brewblox_devcon_spark.StateMachine.{
  StateMachine, set_enabled, check_compatible, set_synchronized,
}
use brewblox_devcon_spark.SparkApi.{Bidict}
use brewblox_devcon_spark.Codec.Libraries.{Pint}
use brewblox_devcon_spark.Codec.Units.{Converter, set_temperature}

-- The settings of `settings_store` that are read.
pub record Settings : Type 0 where
  pub enabled : Bool
  pub temperature : String
  pub tz_posix : String

-- Other tasks change the state machine during each of these; `W` is all that they and the commander
-- work on. `handshake_wait` is one round of `asyncio.wait`, and returns whether the task for the
-- acknowledged event is done; `rounds` is how many rounds the handshake timeout allows.
-- `duration_text` takes any value, where TimeUtils has whole numbers.
pub record Env (S W : Type 0) : Type 0 where
  pub block_store : Bidict S
  pub pint : Pint
  pub cmder : Method → W → StateMachine → Result (List FirmwareBlock) × (W × StateMachine)
  pub reset_connection : W → StateMachine → Result (Unit {0}) × (W × StateMachine)
  pub wait_connected : W → StateMachine → W × StateMachine
  pub wait_disconnected : W → StateMachine → W × StateMachine
  pub handshake_wait : W → StateMachine → Bool × (W × StateMachine)
  pub rounds : W → ℕ
  pub legacy_names : W → StateMachine → Result (List (String × ℕ)) × (W × StateMachine)
  pub remove_legacy_names : W → StateMachine → Result (Unit {0}) × (W × StateMachine)
  pub duration_text : Json → Result Text

pub record Synchronizer (S W : Type 0) : Type 0 where
  pub settings : Settings
  pub state : StateMachine
  pub store : S
  pub converter : Converter
  pub world : W

module _ {S W : Type 0} (env : Env S W) where
  abbrev Step : Type 0 → Type 0
  Step A = Stateful (Synchronizer S W) A

  -- A wait, which other tasks share.
  abbrev shared :
      {A : Type 0}
      → (W → StateMachine → A × (W × StateMachine))
      → Synchronizer S W
      → A × Synchronizer S W
  shared f s = let (a, p) = f s.world s.state in (a, record s { world = p.0; state = p.1 })

  call : Method → Step (List FirmwareBlock)
  call method = shared (env.cmder method)

  pub wait : (W → StateMachine → W × StateMachine) → Step (Unit {0})
  wait f = shared (λ w m. (ok tt, f w m))

  converted : Result (Unit {0}) × Converter → Step (Unit {0})
  converted (r, table) s = (r, record s { converter = table })

  set_converter_units : Step (Unit {0})
  unfolding converted set_temperature
  set_converter_units s =
      converted (set_temperature (env.pint) (s.settings.temperature) s.converter) s

  sysinfo_patch : Settings → FirmwareBlock
  sysinfo_patch settings = record {
    id = none;
    nid = 2;
    type = some "SysInfo";
    content = some (
        field "timeZone" (text (settings.tz_posix)) (
          field "tempUnit"
            (text
              (if str_eq (settings.temperature) "degF" then "TEMP_FAHRENHEIT" else "TEMP_CELSIUS"))
            end));
  }

  one_block : List FirmwareBlock → Result FirmwareBlock
  one_block [] = err index_error
  one_block (b ∷ bs) = ok b

  is_sysinfo : Option String → Bool
  is_sysinfo none = false
  is_sysinfo (some t) = str_eq t "SysInfo"

  data_at : Option Fields → String → Result Json
  unfolding subscript
  data_at none key = err type_error
  data_at (some fs) key = subscript (object fs) key

  check_sysinfo : FirmwareBlock → Result (Unit {0})
  unfolding is_sysinfo data_at subscript
  check_sysinfo b =
      if is_sysinfo b.type
      then data_at b.content "uptime" >>= (λ uptime. subscript uptime "value" >>= (λ v.
        env.duration_text v >>= (λ t. data_at b.content "updatesPerSecond" >>= (λ freq. ok tt))))
      else err command_exception

  unfoldable pub set_sysinfo_settings : Step (Unit {0})
  unfolding call sysinfo_patch one_block check_sysinfo
  set_sysinfo_settings s =
      (call (Method.patch_block (sysinfo_patch (s.settings)))
          then (λ blocks. lift (one_block blocks >>= check_sysinfo)))
        s

  unfoldable pub apply_global_settings : Step (Unit {0})
  unfolding set_converter_units set_sysinfo_settings
  apply_global_settings =
      set_converter_units
      then (λ _ s. (if s.state.synchronized_ev then set_sysinfo_settings else done tt) s)

  unfoldable pub apply_service_settings : Step (Unit {0})
  unfolding set_enabled
  apply_service_settings s = (ok tt, record s { state = set_enabled (s.settings.enabled) s.state })

  -- An error is logged.
  prompt_handshake : Synchronizer S W → Synchronizer S W
  unfolding call
  prompt_handshake s = (call Method.version s).1

  unfoldable pub handshake_rounds : ℕ → Step (Unit {0})
  unfolding prompt_handshake
  handshake_rounds zero s = (err timeout_error, s)
  handshake_rounds (suc n) s =
      let (is_done, t) = shared (env.handshake_wait) (prompt_handshake s) in
      let rest = handshake_rounds n t in if is_done then (ok tt, t) else rest

  checked : Result Bool → Result (Unit {0})
  checked (err e) = err e
  checked (ok b) = ok tt

  confirm : Step (Unit {0})
  unfolding checked
  confirm s = (checked (check_compatible s.state), s)

  unfoldable pub sync_handshake : Step (Unit {0})
  unfolding handshake_rounds confirm
  sync_handshake s = (handshake_rounds (env.rounds s.world) then (λ _. confirm)) s

  put_name : Option String → ℕ → S → S
  put_name none nid store = store
  put_name (some id) nid store = env.block_store.put id nid store

  put_names : List FirmwareBlock → S → S
  unfolding put_name
  put_names [] store = store
  put_names (b ∷ bs) store = put_names bs (put_name b.id b.nid store)

  -- One entry of the old name table; an error is logged.
  put_legacy : String → ℕ → Result (List FirmwareBlock) × Synchronizer S W → Synchronizer S W
  put_legacy sid nid (err e, s) = s
  put_legacy sid nid (ok bs, s) = record s { store = env.block_store.put sid nid s.store }

  rename_legacy : List (String × ℕ) → Synchronizer S W → Synchronizer S W
  unfolding put_legacy call
  rename_legacy [] s = s
  rename_legacy ((sid, nid) ∷ entries) s = rename_legacy entries (
      put_legacy sid nid (
        call
          (Method.write_block_name
            (record { id = some sid; nid = nid; type = none; content = none }))
          s))

  is_empty : List (String × ℕ) → Bool
  is_empty [] = true
  is_empty (e ∷ es) = false

  unfoldable pub sync_block_store : Step (Unit {0})
  unfolding call put_names rename_legacy is_empty
  sync_block_store =
      call Method.read_all_block_names
      then (λ blocks s.
          (ok tt, record s { store = put_names blocks (env.block_store.clear s.store) }))
      then (λ _. shared (env.legacy_names))
      then (λ entries s.
          let t = rename_legacy entries s in
          (if not (is_empty entries) && t.state.acknowledged_ev
              then shared (env.remove_legacy_names)
              else done tt)
            t)

  finished : Result StateMachine → Step (Unit {0})
  finished (err e) s = (err e, s)
  finished (ok m) s = (ok tt, record s { state = m })

  conclude : Step (Unit {0})
  unfolding finished set_synchronized
  conclude s = finished (set_synchronized s.state) s

  -- Behind the handshake.
  unfoldable pub sync_controller : Step (Unit {0})
  unfolding sync_block_store set_sysinfo_settings conclude
  sync_controller = sync_block_store then (λ _. set_sysinfo_settings) then (λ _. conclude)

  -- Up to the connected state.
  unfoldable pub get_ready : Step (Unit {0})
  unfolding apply_global_settings apply_service_settings wait
  get_ready =
      apply_global_settings then (λ _. apply_service_settings) then (λ _. wait (env.wait_connected))

  unfoldable pub synchronize : Step (Unit {0})
  unfolding get_ready sync_handshake sync_controller
  synchronize = get_ready then (λ _. sync_handshake) then (λ _. sync_controller)

  -- What `run` does with the outcome of `synchronize`.
  unfoldable pub handle_error : Result (Unit {0}) → Step (Unit {0})
  handle_error (ok _) = done tt
  handle_error (err incompatible_firmware) = done tt
  handle_error (err invalid_device_id) = done tt
  handle_error (err _) = shared (env.reset_connection)

  -- One round of `repeat`.
  unfoldable pub run : Step (Unit {0})
  unfolding synchronize handle_error wait
  run s = let (r, t) = synchronize s in (handle_error r then (λ _. wait (env.wait_disconnected))) t
