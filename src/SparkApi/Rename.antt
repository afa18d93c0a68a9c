-- ===== src/SparkApi/Rename.antt =====
-- A rename does not look at the state.
use brewblox_devcon_spark.Base.{◌≡◌, refl, ap, ◌∙◌, String, Bool, List, [], ◌∷◌, ℕ}
use brewblox_devcon_spark.Base.Exn.{Result, ok, err}
use brewblox_devcon_spark.Models.Messages.{FirmwareBlock}
use brewblox_devcon_spark.StateMachine.{StateMachine}
use brewblox_devcon_spark.SparkApi.{Env, Api}
use brewblox_devcon_spark.SparkApi.Actions.{Act, ◌>>=◌, continue, call}
use brewblox_devcon_spark.SparkApi.Calls.{nid_named, write_name, store_name, rename_block}

module _ {S W : Type 0} where
  -- Code that gives the same result, and leaves the same, in any other state of the state machine.
  IsUnguarded : {A : Type 0} → Act S W A → Type 0
  IsUnguarded act =
      (s : Api S W) (other : StateMachine)
      → act (record s { state = other }) ≡ ((act s).0, record (act s).1 { state = other })

  continue-other :
      {A B : Type 0} (next : A → Act S W B)
      → ((a : A) → IsUnguarded (next a))
      → (r : Result A) (s : Api S W) (other : StateMachine)
      → continue next (r, record s { state = other })
        ≡ ((continue next (r, s)).0, record (continue next (r, s)).1 { state = other })
  unfolding IsUnguarded
  continue-other next h (ok a) s other = h a s other
  continue-other next h (err e) s other = refl

  then-IsUnguarded :
      {A B : Type 0} (act : Act S W A) (next : A → Act S W B)
      → IsUnguarded act
      → ((a : A) → IsUnguarded (next a))
      → IsUnguarded (act >>= next)
  unfolding IsUnguarded
  then-IsUnguarded act next h k s other =
      ap (continue next) (h s other) ∙ continue-other next k (act s).0 (act s).1 other

  store_name-IsUnguarded :
      (env : Env S W) (in_time : Bool) (blocks : List FirmwareBlock)
      → IsUnguarded (store_name env in_time blocks)
  unfolding IsUnguarded store_name
  store_name-IsUnguarded env t [] s other = refl
  store_name-IsUnguarded env t (b ∷ blocks) s other = refl

  write_name-IsUnguarded :
      (env : Env S W) (in_time : Bool) (desired : String) (nid : ℕ)
      → IsUnguarded (write_name env in_time desired nid)
  unfolding IsUnguarded write_name call
  write_name-IsUnguarded env t desired nid s other = refl

  nid_named-IsUnguarded :
      (env : Env S W) (in_time : Bool) (existing : String)
      → IsUnguarded (nid_named env in_time existing)
  unfolding IsUnguarded nid_named
  nid_named-IsUnguarded env t existing s other = refl

  rename_block-IsUnguarded :
      (env : Env S W) (in_time : Bool) (existing desired : String)
      → IsUnguarded (rename_block env in_time existing desired)
  unfolding rename_block
  rename_block-IsUnguarded env t existing desired =
      then-IsUnguarded (nid_named env t existing)
        (λ nid. write_name env t desired nid >>= (λ blocks. store_name env t blocks))
        (nid_named-IsUnguarded env t existing)
        (λ nid.
          then-IsUnguarded (write_name env t desired nid) (λ blocks. store_name env t blocks)
            (write_name-IsUnguarded env t desired nid) (store_name-IsUnguarded env t))

  -- A rename gives the same result, sends the same command and leaves the same names in any other state
  -- of the state machine, also during a firmware update.
  pub rename_block_any_state :
      (env : Env S W) (in_time : Bool) (existing desired : String) (s : Api S W)
      (other : StateMachine)
      → let (r, t) = rename_block env in_time existing desired s in
        rename_block env in_time existing desired (record s { state = other })
        ≡ (r, record t { state = other })
  unfolding IsUnguarded
  rename_block_any_state env t existing desired s other =
      rename_block-IsUnguarded env t existing desired s other
