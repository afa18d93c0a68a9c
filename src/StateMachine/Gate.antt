-- ===== src/StateMachine/Gate.antt =====
-- The compatibility check that stands between a handshake and the synchronized state.
use brewblox_devcon_spark.Base.{
  Bool, true, false, ◌≡◌, ◌↔◌, ◌⊎◌, List, [], arith, take, text_eq_iff, if◌then◌else◌,
}
use brewblox_devcon_spark.Base.Exn.{Result, ok, err, incompatible_firmware, invalid_device_id}
use brewblox_devcon_spark.Models.{
  ControllerDescription, firmware_description, device_description, lower, truncate_version,
}
use brewblox_devcon_spark.Models.Config.{ServiceConfig, FirmwareConfig}
use brewblox_devcon_spark.StateMachine.{
  StateMachine, init, check_compatible, set_acknowledged, compatible_firmware, compatible_identity,
  wildcard_id, or_empty,
}
use brewblox_devcon_spark.StateMachine.Invariant.{Call, run, service-run}

-- What the check decides, by the firmware first.
abbrev pub verdict : Bool → Bool → Result Bool
verdict firmware identity =
    if firmware
    then (if identity then ok true else err invalid_device_id)
    else err incompatible_firmware

pub check_compatible-set_acknowledged :
    (config : ServiceConfig) (c : ControllerDescription) (s : StateMachine)
    → s.synchronized_ev ≡ false
    → check_compatible (set_acknowledged config c s)
      ≡ verdict (compatible_firmware config s.service c) (compatible_identity s.service c)
unfolding check_compatible set_acknowledged
check_compatible-set_acknowledged config c s h = ground arith

-- What a controller must report to be compatible with a configured service.
pub record IsCompatible (config : ServiceConfig) (fw : FirmwareConfig) (c : ControllerDescription)
    : Type 0 where
  pub proto :
      (take 8 fw.proto_version ≡ c.firmware.proto_version) ⊎ (config.skip_version_check ≡ true)
  pub device :
      (lower (or_empty config.device_id) ≡ c.device.device_id)
      ⊎ (lower (or_empty config.device_id) ≡ [])

verdict_iff : (f i : Bool) → (verdict f i ≡ ok true) ↔ ((f ≡ true) × (i ≡ true))
verdict_iff f i = ground arith

module _ (config : ServiceConfig) (fw : FirmwareConfig) (c : ControllerDescription) where
  compatible_firmware_iff :
      (compatible_firmware config (init config fw).service c ≡ true)
      ↔ ((take 8 fw.proto_version ≡ c.firmware.proto_version) ⊎ (config.skip_version_check ≡ true))
  unfolding compatible_firmware init firmware_description truncate_version
  compatible_firmware_iff =
      ground (arith, text_eq_iff (take 8 fw.proto_version) c.firmware.proto_version)

  compatible_identity_iff : (compatible_identity (init config fw).service c ≡ true) ↔ (
      (lower (or_empty config.device_id) ≡ c.device.device_id)
      ⊎ (lower (or_empty config.device_id) ≡ []))
  unfolding compatible_identity wildcard_id init device_description
  compatible_identity_iff = ground (
    arith,
    text_eq_iff (lower (or_empty config.device_id)) c.device.device_id,
    text_eq_iff (lower (or_empty config.device_id)) [],
  )

-- Whatever calls led to a state that is not synchronized, the check after a handshake passes
-- exactly when the first 8 characters of the service's protocol version are those that the
-- controller reported, or the check is skipped; and the configured device ID in lower case is the controller's, or is empty.
pub check_compatible_iff :
    (config : ServiceConfig) (fw : FirmwareConfig) (calls : List Call) (c : ControllerDescription)
    → (run (init config fw) calls).synchronized_ev ≡ false
    → (check_compatible (set_acknowledged config c (run (init config fw) calls)) ≡ ok true)
      ↔ IsCompatible config fw c
check_compatible_iff config fw calls c h =
    rw
      (
        check_compatible-set_acknowledged config c (run (init config fw) calls) h,
        service-run (init config fw) calls,
      )
      (to, from)
  where
    to :
        verdict
            (compatible_firmware config (init config fw).service c)
            (compatible_identity (init config fw).service c)
          ≡ ok true
        → IsCompatible config fw c
    to p =
        let (f, i) = (verdict_iff _ _).0 p in
        record {
          proto = (compatible_firmware_iff config fw c).0 f;
          device = (compatible_identity_iff config fw c).0 i;
        }

    from :
        IsCompatible config fw c
        → verdict
            (compatible_firmware config (init config fw).service c)
            (compatible_identity (init config fw).service c)
          ≡ ok true
    from k = (verdict_iff _ _).1 (
      (compatible_firmware_iff config fw c).1 k.proto,
      (compatible_identity_iff config fw c).1 k.device,
    )
