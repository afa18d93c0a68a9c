-- ===== src/StateMachine/Invariant.antt =====
-- What holds of the status description and the events, whatever calls were made in whatever order.
use brewblox_devcon_spark.Base.{
  Bool, true, false, not, ◌≡◌, refl, ◌∙◌, List, [], ◌∷◌, Option, none, some, Text, arith,
}
use brewblox_devcon_spark.Base.Exn.{Result, ok, err}
use brewblox_devcon_spark.Models.{ControllerDescription, ConnectionKind, ConnectionStatus}
use brewblox_devcon_spark.Models.Config.{ServiceConfig, FirmwareConfig}
use brewblox_devcon_spark.StateMachine.{
  StateMachine, init, set_enabled, set_connected, set_acknowledged, set_synchronized, set_updating,
  set_disconnected,
}

-- A call of a method that changes the state.
pub data Call : Type 0 where
  enable : Bool → Call
  connect : ConnectionKind → Text → Call
  acknowledge : ServiceConfig → ControllerDescription → Call
  synchronize update disconnect : Call

-- A call that raises leaves the state as it was.
kept : StateMachine → Result StateMachine → StateMachine
kept s (ok s') = s'
kept s (err e) = s

unfoldable pub apply : StateMachine → Call → StateMachine
unfolding kept
apply s (enable e) = set_enabled e s
apply s (connect k a) = set_connected k a s
apply s (acknowledge config c) = set_acknowledged config c s
apply s synchronize = kept s (set_synchronized s)
apply s update = set_updating s
apply s disconnect = set_disconnected s

unfoldable pub run : StateMachine → List Call → StateMachine
run s [] = s
run s (c ∷ calls) = run (apply s c) calls

abbrev pub is_some {ℓ} : {A : Type ℓ} → Option A → Bool
is_some none = false
is_some (some a) = true

service-apply : (s : StateMachine) (c : Call) → (apply s c).service ≡ s.service
unfolding apply set_enabled set_connected set_acknowledged set_synchronized set_updating
    set_disconnected
service-apply s (enable e) = refl
service-apply s (connect k a) = refl
service-apply s (acknowledge config c) = ground arith
service-apply s synchronize = ground arith
service-apply s update = refl
service-apply s disconnect = refl

-- What the published status says of the events.
abbrev pub StatusFits : ConnectionStatus → StateMachine → Type 0
StatusFits ConnectionStatus.disconnected s =
    (s.connected_ev ≡ false)
    × (s.acknowledged_ev ≡ false)
    × (s.synchronized_ev ≡ false)
    × (s.updating_ev ≡ false)
    × (is_some s.controller ≡ false)
StatusFits ConnectionStatus.connected s =
    (s.connected_ev ≡ true) × (s.acknowledged_ev ≡ false) × (s.synchronized_ev ≡ false)
StatusFits ConnectionStatus.acknowledged s =
    (s.acknowledged_ev ≡ true) × (s.synchronized_ev ≡ false)
StatusFits ConnectionStatus.synchronized s = s.synchronized_ev ≡ true
StatusFits ConnectionStatus.updating s = s.updating_ev ≡ true

pub record IsConsistent (s : StateMachine) : Type 0 where
  pub enabled : s.enabled ≡ s.enabled_ev
  pub link : s.disconnected_ev ≡ not s.connected_ev
  pub address : is_some s.address ≡ s.connected_ev
  pub kind : is_some s.connection_kind ≡ s.connected_ev
  pub order : s.synchronized_ev ≡ true → s.acknowledged_ev ≡ true
  pub controller : s.acknowledged_ev ≡ true → is_some s.controller ≡ true
  pub no_error :
      is_some s.controller ≡ false → (s.firmware_error ≡ none) × (s.identity_error ≡ none)
  pub status : StatusFits s.connection_status s

pub init-IsConsistent :
    (config : ServiceConfig) (fw : FirmwareConfig) → IsConsistent (init config fw)
unfolding init
init-IsConsistent config fw = record {
  enabled = refl;
  link = refl;
  address = refl;
  kind = refl;
  order = λ h. cc;
  controller = λ h. cc;
  no_error = λ h. (refl, refl);
  status = (refl, refl, refl, refl, refl);
}

set_enabled-StatusFits :
    (c : ConnectionStatus) (e : Bool) (s : StateMachine)
    → StatusFits c s
    → StatusFits c (set_enabled e s)
unfolding set_enabled
set_enabled-StatusFits ConnectionStatus.disconnected e s h = h
set_enabled-StatusFits ConnectionStatus.connected e s h = h
set_enabled-StatusFits ConnectionStatus.acknowledged e s h = h
set_enabled-StatusFits ConnectionStatus.synchronized e s h = h
set_enabled-StatusFits ConnectionStatus.updating e s h = h

pub apply-IsConsistent : (s : StateMachine) (c : Call) → IsConsistent s → IsConsistent (apply s c)
unfolding apply set_enabled set_connected set_acknowledged set_synchronized set_updating
    set_disconnected
apply-IsConsistent s (enable e) h = record {
  enabled = refl;
  link = h.link;
  address = h.address;
  kind = h.kind;
  order = h.order;
  controller = h.controller;
  no_error = h.no_error;
  status = set_enabled-StatusFits s.connection_status e s h.status;
}
apply-IsConsistent s (connect k a) h = ground arith
apply-IsConsistent s (acknowledge config c) h = ground arith
apply-IsConsistent s synchronize h = ground arith
apply-IsConsistent s update h = ground arith
apply-IsConsistent s disconnect h = ground arith

pub run-IsConsistent_from :
    (s : StateMachine) (calls : List Call) → IsConsistent s → IsConsistent (run s calls)
unfolding run
run-IsConsistent_from s [] h = h
run-IsConsistent_from s (c ∷ calls) h =
    run-IsConsistent_from (apply s c) calls (apply-IsConsistent s c h)

-- After any calls of its methods, in any order and with any arguments, the state machine is
-- consistent: the enabled flag, the link events, the address and the connection kind agree;
-- synchronized implies acknowledged, and acknowledged a known controller; without a controller there
-- is no error; and the published status says of the events what its name promises.
pub run-IsConsistent :
    (config : ServiceConfig) (fw : FirmwareConfig) (calls : List Call)
    → IsConsistent (run (init config fw) calls)
run-IsConsistent config fw calls =
    run-IsConsistent_from (init config fw) calls (init-IsConsistent config fw)

-- No call changes the description of the service.
pub service-run : (s : StateMachine) (calls : List Call) → (run s calls).service ≡ s.service
unfolding run
service-run s [] = refl
service-run s (c ∷ calls) = service-run (apply s c) calls ∙ service-apply s c
