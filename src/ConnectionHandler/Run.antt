-- ===== src/ConnectionHandler/Run.antt =====
-- What a run of the handler leaves behind.
use brewblox_devcon_spark.Base.{◌≡◌, refl, ap, List, [], ◌∷◌, Option, none, some}
use brewblox_devcon_spark.Base.Exn.{Exn, Result, ok, err, connection_aborted}
use brewblox_devcon_spark.Models.Config.{ServiceConfig}
use brewblox_devcon_spark.StateMachine.{StateMachine, set_disconnected}
use brewblox_devcon_spark.StateMachine.Invariant.{
  Call, connect, disconnect, apply, IsConsistent, run as run_calls, run-IsConsistent_from,
}
use brewblox_devcon_spark.StateMachine.Progress.{down, phase, phase-disconnect}
use brewblox_devcon_spark.ConnectionHandler.{
  ConnectionHandler, ConnectionImpl, Link, lost, failed, handle, attempt, close, run,
}

-- The calls that a run makes on the state machine.
pub calls : Result (Option ConnectionImpl) → Link → List Call
calls (ok (some impl)) lost = connect impl.kind impl.address ∷ disconnect ∷ []
calls _ _ = disconnect ∷ []

handle_keeps :
    (config : ServiceConfig) (e : Exn) (h : ConnectionHandler)
    → ((handle config e h).state ≡ h.state) × ((handle config e h).impl ≡ h.impl)
unfolding handle
handle_keeps config connection_aborted h = (refl, refl)
handle_keeps config _ h = (refl, refl)

state-run :
    (config : ServiceConfig) (result : Result (Option ConnectionImpl)) (link : Link)
    (h : ConnectionHandler)
    → (run config result link h).state ≡ run_calls h.state (calls result link)
unfolding run attempt close calls run_calls apply
state-run config (err e) link h = ap set_disconnected (handle_keeps config e h).0
state-run config (ok none) link h =
    ap set_disconnected (handle_keeps config Exn.attribute_error h).0
state-run config (ok (some impl)) (failed e) h =
    ap set_disconnected (handle_keeps config e (record h { impl = some impl })).0
state-run config (ok (some impl)) lost h = refl

phase-calls :
    (result : Result (Option ConnectionImpl)) (link : Link) (s : StateMachine)
    → phase (run_calls s (calls result link)) ≡ down
unfolding calls run_calls
phase-calls (err e) link s = phase-disconnect s
phase-calls (ok none) link s = phase-disconnect s
phase-calls (ok (some impl)) (failed e) s = phase-disconnect s
phase-calls (ok (some impl)) lost s = phase-disconnect (apply s (connect impl.kind impl.address))

impl-run :
    (config : ServiceConfig) (result : Result (Option ConnectionImpl)) (link : Link)
    (h : ConnectionHandler)
    → (run config result link h).impl ≡ none
unfolding run close
impl-run config result link h = refl

-- However a run ends, there is no connection left, the state machine is down, and it is consistent
-- if it was before.
pub run-down :
    (config : ServiceConfig) (result : Result (Option ConnectionImpl)) (link : Link)
    (h : ConnectionHandler)
    → IsConsistent h.state
    → let h' = run config result link h in
      (h'.impl ≡ none) × (phase h'.state ≡ down) × IsConsistent h'.state
run-down config result link h c = (
  impl-run config result link h,
  rw (state-run config result link h) (phase-calls result link h.state),
  rw (state-run config result link h) (run-IsConsistent_from h.state (calls result link) c),
)
