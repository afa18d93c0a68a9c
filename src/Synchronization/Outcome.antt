-- ===== src/Synchronization/Outcome.antt =====
-- synchronization.py: what a round of the synchronization can end in.
use brewblox_devcon_spark.Base.{
  Bool, true, not, ◌≡◌, refl, sym, ap, ◌∙◌, subst, arith, ◌⊎◌, inl, inr, if◌then◌else◌, if-cases,
}
use brewblox_devcon_spark.Base.Exn.{Exn, Result, ok, err, incompatible_firmware, invalid_device_id}
use brewblox_devcon_spark.Base.Steps.{◌then◌, then-ok, then-err, then-at}
use brewblox_devcon_spark.Models.{ConnectionStatus}
use brewblox_devcon_spark.StateMachine.{StateMachine, check_compatible, set_synchronized}
use brewblox_devcon_spark.Synchronization.{
  Env, Synchronizer, wait, handshake_rounds, checked, confirm, conclude, get_ready, sync_handshake,
  sync_block_store, set_sysinfo_settings, finished, sync_controller, synchronize, handle_error, run,
}

-- The check returns nothing but true.
check_compatible-true : (m : StateMachine) (b : Bool) → check_compatible m ≡ ok b → b ≡ true
unfolding check_compatible
check_compatible-true m b h = ground arith

set_synchronized-ok :
    (m n : StateMachine)
    → set_synchronized m ≡ ok n
    → (n.synchronized_ev ≡ true) × (n.acknowledged_ev ≡ true)
unfolding set_synchronized
set_synchronized-ok m n h = elim (if-cases (not m.acknowledged_ev) _ _ (ok n) h) [
  | inl (_, h) ↦ cc
  | inr (is, h) ↦
      let same : record m {
        status_desc = record m.status_desc { connection_status = ConnectionStatus.synchronized };
        synchronized_ev = true;
      }
          ≡ n =
        cc in
      (
        ap (λ s. s.synchronized_ev) (sym same),
        ap (λ s. s.acknowledged_ev) (sym same) ∙ ground (arith, is),
      )
]

module _ {S W : Type 0} (env : Env S W) where
  checked-ok : (r : Result Bool) → checked env r ≡ ok tt → (b : Bool) × (r ≡ ok b)
  unfolding checked
  checked-ok (err e) h = cc
  checked-ok (ok b) h = (b, refl)

  confirm-ok :
      (s : Synchronizer S W)
      → (confirm env s).0 ≡ ok tt
      → check_compatible (confirm env s).1.state ≡ ok true
  unfolding confirm
  confirm-ok s h =
      let (b, is) = checked-ok (check_compatible s.state) h in
      is ∙ ap ok (check_compatible-true s.state b is)

  -- A handshake that returns has found a compatible controller.
  sync_handshake-ok :
      (s : Synchronizer S W)
      → (sync_handshake env s).0 ≡ ok tt
      → check_compatible (sync_handshake env s).1.state ≡ ok true
  unfolding sync_handshake
  sync_handshake-ok s h =
      let rounds = handshake_rounds env (env.rounds s.world) in
      let (u, _, is) = then-ok rounds (λ _. confirm env) s tt h in
      subst (λ p. check_compatible p.1.state ≡ ok true) (sym is)
        (confirm-ok (rounds s).1 (sym (ap (λ p. p.0) is) ∙ h))

  finished-ok :
      (r : Result StateMachine) (s : Synchronizer S W)
      → (finished env r s).0 ≡ ok tt
      → (m : StateMachine) × (r ≡ ok m) × ((finished env r s).1.state ≡ m)
  unfolding finished
  finished-ok (err e) s h = cc
  finished-ok (ok m) s h = (m, refl, refl)

  pub IsSynchronized : Synchronizer S W → Type 0
  IsSynchronized s = (s.state.synchronized_ev ≡ true) × (s.state.acknowledged_ev ≡ true)

  conclude-ok :
      (s : Synchronizer S W) → (conclude env s).0 ≡ ok tt → IsSynchronized (conclude env s).1
  unfolding conclude IsSynchronized
  conclude-ok s h =
      let (m, made, is) = finished-ok (set_synchronized s.state) s h in
      let (synced, acked) = set_synchronized-ok s.state m made in
      (ap (λ x. x.synchronized_ev) is ∙ synced, ap (λ x. x.acknowledged_ev) is ∙ acked)

  sync_controller-ok :
      (s : Synchronizer S W)
      → (sync_controller env s).0 ≡ ok tt
      → IsSynchronized (sync_controller env s).1
  unfolding sync_controller
  sync_controller-ok s h =
      let first = sync_block_store env then (λ _. set_sysinfo_settings env) in
      let (u, _, is) = then-ok first (λ _. conclude env) s tt h in
      subst (λ p. IsSynchronized p.1) (sym is)
        (conclude-ok (first s).1 (sym (ap (λ p. p.0) is) ∙ h))

  -- When `synchronize` returns, the state machine is acknowledged and synchronized, and the last part,
  -- from the block names to SYNCHRONIZED, has begun in a state in which the controller was compatible.
  pub synchronize-ok :
      (s : Synchronizer S W)
      → (synchronize env s).0 ≡ ok tt
      → IsSynchronized (synchronize env s).1
        × ((m : Synchronizer S W) × (check_compatible m.state ≡ ok true)
            × (synchronize env s ≡ sync_controller env m))
  unfolding synchronize
  synchronize-ok s h =
      let first = get_ready env then (λ _. sync_handshake env) in
      let (u, shaken, is) = then-ok first (λ _. sync_controller env) s tt h in
      let (v, _, at) = then-ok (get_ready env) (λ _. sync_handshake env) s u shaken in
      let ready = (get_ready env s).1 in
      (
        subst (λ p. IsSynchronized p.1) (sym is)
            (sync_controller-ok (first s).1 (sym (ap (λ p. p.0) is) ∙ h)),
        (
          (first s).1,
          subst (λ p. check_compatible p.1.state ≡ ok true) (sym at)
              (sync_handshake-ok ready (sym (ap (λ p. p.0) at) ∙ shaken)),
          is,
        ),
      )

  check_compatible-err :
      (m : StateMachine) (e : Exn)
      → check_compatible m ≡ err e
      → (e ≡ incompatible_firmware) ⊎ (e ≡ invalid_device_id)
  unfolding check_compatible
  check_compatible-err m e h = ground arith

  confirm-err :
      (s : Synchronizer S W) (e : Exn)
      → check_compatible s.state ≡ err e
      → confirm env s ≡ (err e, s)
  unfolding confirm checked
  confirm-err s e h = ap (λ r. (checked env r, s)) h

  handle_error-refused :
      (e : Exn) (m : Synchronizer S W)
      → (e ≡ incompatible_firmware) ⊎ (e ≡ invalid_device_id)
      → (handle_error env (err e) then (λ _. wait env (env.wait_disconnected))) m
        ≡ wait env (env.wait_disconnected) m
  unfolding handle_error
  handle_error-refused e m (inl is) =
      ap (λ x. (handle_error env (err x) then (λ _. wait env (env.wait_disconnected))) m) is
  handle_error-refused e m (inr is) =
      ap (λ x. (handle_error env (err x) then (λ _. wait env (env.wait_disconnected))) m) is

  -- When the service got connected, and the controller answered within the rounds of the handshake
  -- but is not compatible, a round ends with the wait for a disconnect, in the state of the
  -- handshake: nothing more is sent, no block name is changed, and the connection is not reset.
  pub run-refused :
      (s : Synchronizer S W) (e : Exn)
      → (get_ready env s).0 ≡ ok tt
      → (handshake_rounds env (env.rounds (get_ready env s).1.world) (get_ready env s).1).0 ≡ ok tt
      → check_compatible
          (handshake_rounds env (env.rounds (get_ready env s).1.world) (get_ready env s).1).1.state
        ≡ err e
      → run env s
        ≡ wait env
            (env.wait_disconnected)
            (handshake_rounds env (env.rounds (get_ready env s).1.world) (get_ready env s).1).1
  unfolding run synchronize sync_handshake
  run-refused s e ready shaken refused =
      let a = (get_ready env s).1 in
      let rounds = handshake_rounds env (env.rounds a.world) in
      let m = (rounds a).1 in
      let handshake : sync_handshake env a ≡ (err e, m) =
        then-at rounds (λ _. confirm env) a tt shaken ∙ confirm-err m e refused in
      let first = get_ready env then (λ _. sync_handshake env) in
      let before : first s ≡ (err e, m) =
        then-at (get_ready env) (λ _. sync_handshake env) s tt ready ∙ handshake in
      let whole : synchronize env s ≡ (err e, m) =
        then-err first (λ _. sync_controller env) s e (ap (λ p. p.0) before)
        ∙ ap (λ x. (err e, x)) (ap (λ p. p.1) before) in
      ap (λ p. (handle_error env p.0 then (λ _. wait env (env.wait_disconnected))) p.1) whole
      ∙ handle_error-refused e m (check_compatible-err m.state e refused)
