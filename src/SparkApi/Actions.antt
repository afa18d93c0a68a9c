-- ===== src/SparkApi/Actions.antt =====
-- Code of the API: it changes the state, also when it raises.
use brewblox_devcon_spark.Base.{List, ◌+◌, Bool, ◌||◌, if◌then◌else◌}
use brewblox_devcon_spark.Base.Exn.{
  Result, ok, err, not_connected, update_in_progress, command_timeout,
}
use brewblox_devcon_spark.Models.Messages.{FirmwareBlock}
use brewblox_devcon_spark.Command.Methods.{Method}
use brewblox_devcon_spark.StateMachine.{check_compatible}
use brewblox_devcon_spark.SparkApi.{Env, Api}

abbrev pub Act : Type 0 → Type 0 → Type 0 → Type 0
Act S W A = Api S W → Result A × Api S W

module _ {S W : Type 0} where
  abbrev pub continue : {A B : Type 0} → (A → Act S W B) → Result A × Api S W → Result B × Api S W
  continue next (ok a, s) = next a s
  continue next (err e, s) = (err e, s)

  infixl 5 ◌>>=◌
  abbrev pub ◌>>=◌ : {A B : Type 0} → Act S W A → (A → Act S W B) → Act S W B
  (act >>= next) s = continue next (act s)

  abbrev pub done : {A : Type 0} → A → Act S W A
  done a s = (ok a, s)

  -- A pure part that may raise.
  abbrev pub lift : {A : Type 0} → Result A → Act S W A
  lift r s = (r, s)

  abbrev pub modify : (S → S) → Act S W (Unit {0})
  modify f s = (ok tt, record s { store = f s.store })

  -- A call of the commander.
  unfoldable pub call : Env S W → Method → Act S W (List FirmwareBlock)
  call env method s = let (r, w) = env.cmder method s.world in (r, record s { world = w })

  -- A timeout of the command schedules a check of the connection.
  unfoldable pub watched : {A : Type 0} → Result A × Api S W → Result A × Api S W
  watched (err command_timeout, s) = (err command_timeout, record s { checks = s.checks + 1 })
  watched r = r

  unfoldable pub compatible : {A : Type 0} → Result Bool → Act S W A → Act S W A
  compatible (err e) body s = (err e, s)
  compatible (ok b) body s = body s

  -- `_execute`; `in_time` is whether the synchronized event is set before the timeout, where it is not
  -- set yet.
  unfoldable pub execute : {A : Type 0} → Bool → Act S W A → Act S W A
  unfolding watched compatible
  execute in_time body s =
      if s.state.updating_ev
      then (err update_in_progress, s)
      else compatible (check_compatible s.state)
          (λ t.
            if t.state.synchronized_ev || in_time then watched (body t) else (err not_connected, t))
          s
