-- ===== src/StateMachine/Progress.antt =====
-- The order of the states: the machine goes through them one by one, may then be updated, and goes
-- back to the start at any time.
use brewblox_devcon_spark.Base.{
  List, [], ◌∷◌, true, false, ◌≡◌, refl, arith, Bool-cases, inl, inr, if◌then◌else◌,
}
use brewblox_devcon_spark.Base.Exn.{ok}
use brewblox_devcon_spark.Models.{ControllerDescription, ConnectionStatus}
use brewblox_devcon_spark.Models.Config.{ServiceConfig, FirmwareConfig}
use brewblox_devcon_spark.StateMachine.{
  StateMachine, init, set_enabled, set_connected, set_acknowledged, set_synchronized, set_updating,
  set_disconnected,
}
use brewblox_devcon_spark.StateMachine.Invariant.{
  Call, enable, connect, acknowledge, synchronize, update, disconnect, apply, IsConsistent,
  init-IsConsistent, apply-IsConsistent,
}

-- The states of synchronization.py, and its steps between them: a firmware update can start when the
-- controller is known, synchronized or not, and the machine may be disconnected at any time.
pub data Phase : Type 0 where
  down linked known ready busy : Phase

pub data Advance : Phase → Phase → Type 0 where
  stay : (p : Phase) → Advance p p
  link : Advance down linked
  handshake : Advance linked known
  finish : Advance known ready
  start_update : Advance known busy
  update_ready : Advance ready busy
  drop : (p : Phase) → Advance p down

-- The phase that the events show.
pub phase : StateMachine → Phase
phase s =
    if s.disconnected_ev
    then down
    else if s.updating_ev
    then busy
    else if s.synchronized_ev
    then ready
    else if s.acknowledged_ev
    then known
    else linked

-- The status that is published for the phase.
pub published : Phase → ConnectionStatus
published down = ConnectionStatus.disconnected
published linked = ConnectionStatus.connected
published known = ConnectionStatus.acknowledged
published ready = ConnectionStatus.synchronized
published busy = ConnectionStatus.updating

pub phase-disconnect : (s : StateMachine) → phase (apply s disconnect) ≡ down
unfolding phase apply set_disconnected
phase-disconnect s = refl

-- A call as the service makes it: the connection handler reports a connection only after the
-- previous one was closed, a controller answers only while it is connected, and an update starts only
-- where the controller is known.
abbrev pub InOrder : StateMachine → Call → Type 0
InOrder s (connect k a) = s.connected_ev ≡ false
InOrder s (acknowledge config c) = s.connected_ev ≡ true
InOrder s update = s.acknowledged_ev ≡ true
InOrder s _ = Unit

-- What such calls keep, beside what any calls keep.
record IsOrdered (s : StateMachine) : Type 0 where
  down :
      s.disconnected_ev ≡ true
      → (s.acknowledged_ev ≡ false) × (s.synchronized_ev ≡ false) × (s.updating_ev ≡ false)
  shown : s.updating_ev ≡ false → s.connection_status ≡ published (phase s)

apply-IsOrdered :
    (s : StateMachine) (c : Call)
    → IsConsistent s
    → IsOrdered s
    → InOrder s c
    → IsOrdered (apply s c)
unfolding phase published apply set_enabled set_connected set_acknowledged set_synchronized
    set_updating set_disconnected
apply-IsOrdered s (enable e) h k o = ground arith
apply-IsOrdered s (connect x a) h k o = ground arith
apply-IsOrdered s (acknowledge config c) h k o = ground arith
apply-IsOrdered s synchronize h k o = ground arith
apply-IsOrdered s update h k o = ground arith
apply-IsOrdered s disconnect h k o = ground arith

apply-Advance :
    (s : StateMachine) (c : Call)
    → IsConsistent s
    → IsOrdered s
    → InOrder s c
    → Advance (phase s) (phase (apply s c))
unfolding phase apply set_enabled set_connected set_acknowledged set_synchronized set_updating
    set_disconnected
apply-Advance s (enable e) h k o = stay _
apply-Advance s (connect x a) h k o =
    let off : s.disconnected_ev ≡ true = ground arith in rw (off, (k.down off).2) link
apply-Advance s (acknowledge config c) h k o =
    let on : s.disconnected_ev ≡ false = ground arith in
    elim (Bool-cases s.synchronized_ev) [
      | inl e ↦ rw e (stay _)
      | inr e ↦ elim (Bool-cases s.updating_ev) [
        | inl u ↦ rw (e, u, on) (stay busy)
        | inr u ↦ elim (Bool-cases s.acknowledged_ev) [
          | inl a ↦ rw (e, u, a, on) (stay known)
          | inr a ↦ rw (e, u, a, on) handshake
        ]
      ]
    ]
apply-Advance s synchronize h k o = elim (Bool-cases s.acknowledged_ev) [
  | inr a ↦ rw a (stay _)
  | inl a ↦ elim (Bool-cases s.disconnected_ev) [
    | inl d ↦ rw (a, d) (stay down)
    | inr d ↦ elim (Bool-cases s.updating_ev) [
      | inl u ↦ rw (a, d, u) (stay busy)
      | inr u ↦ elim (Bool-cases s.synchronized_ev) [
        | inl e ↦ rw (a, d, u, e) (stay ready)
        | inr e ↦ rw (a, d, u, e) finish
      ]
    ]
  ]
]
apply-Advance s update h k o =
    let on : s.disconnected_ev ≡ false = ground arith in
    elim (Bool-cases s.updating_ev) [
      | inl u ↦ rw (u, on) (stay busy)
      | inr u ↦ elim (Bool-cases s.synchronized_ev) [
        | inl e ↦ rw (u, e, on) update_ready
        | inr e ↦ rw (u, e, o, on) start_update
      ]
    ]
apply-Advance s disconnect h k o = drop _

abbrev pub AreInOrder : StateMachine → List Call → Type 0
AreInOrder s [] = Unit
AreInOrder s (c ∷ calls) = InOrder s c × AreInOrder (apply s c) calls

-- Every call is a step, and the published status is that of the phase, unless there is an update.
abbrev pub Advances : StateMachine → List Call → Type 0
Advances s [] = s.updating_ev ≡ false → s.connection_status ≡ published (phase s)
Advances s (c ∷ calls) =
    (s.updating_ev ≡ false → s.connection_status ≡ published (phase s))
    × Advance (phase s) (phase (apply s c))
    × Advances (apply s c) calls

calls-Advances :
    (s : StateMachine) (calls : List Call)
    → IsConsistent s
    → IsOrdered s
    → AreInOrder s calls
    → Advances s calls
calls-Advances s [] h k o = k.shown
calls-Advances s (c ∷ calls) h k o = (
  k.shown,
  apply-Advance s c h k o.0,
  calls-Advances (apply s c) calls (apply-IsConsistent s c h) (apply-IsOrdered s c h k o.0) o.1,
)

init-IsOrdered : (config : ServiceConfig) (fw : FirmwareConfig) → IsOrdered (init config fw)
unfolding init phase published
init-IsOrdered config fw = record { down = λ h. (refl, refl, refl); shown = λ h. refl }

-- In any sequence of calls in order from the start, each call leaves the phase as it is, advances it
-- by one step (connected, acknowledged, synchronized; updating from either of the last two), or
-- disconnects; and before each call and at the end the published status is that of the phase, except
-- during an update. A call is in order unless it connects while connected, acknowledges while not
-- connected, or starts an update while not acknowledged.
pub calls_advance :
    (config : ServiceConfig) (fw : FirmwareConfig) (calls : List Call)
    → AreInOrder (init config fw) calls
    → Advances (init config fw) calls
calls_advance config fw calls o =
    calls-Advances (init config fw) calls (init-IsConsistent config fw) (init-IsOrdered config fw) o

-- In a consistent state that is disconnected and not synchronized, a handshake acknowledges a
-- controller that is not connected, and the state can then be set to synchronized.
pub late_handshake :
    (config : ServiceConfig) (c : ControllerDescription) (s : StateMachine)
    → IsConsistent s
    → s.disconnected_ev ≡ true
    → s.synchronized_ev ≡ false
    → let t = set_acknowledged config c s in
      (t.connection_status ≡ ConnectionStatus.acknowledged)
      × (t.disconnected_ev ≡ true)
      × (u : StateMachine) × (set_synchronized t ≡ ok u)
      × (u.connection_status ≡ ConnectionStatus.synchronized)
      × (u.connected_ev ≡ false)
unfolding set_acknowledged set_synchronized
late_handshake config c s h d e = (
  ground arith,
  ground arith,
  record (set_acknowledged config c s) {
    status_desc = record (set_acknowledged config c s).status_desc {
      connection_status = ConnectionStatus.synchronized;
    };
    synchronized_ev = true;
  },
  ground arith,
  ground arith,
  ground arith,
)
