-- ===== src/Tests/Blocks.antt =====
-- An actuator that is claimed by a driver, which is claimed by a PID.
use brewblox_devcon_spark.Base.{◌≡◌, refl, String, List, [], ◌∷◌, ◌++◌, some, length, suc}
use brewblox_devcon_spark.Base.Exn.{ok, ◌>>=◌}
use brewblox_devcon_spark.Base.Dict.{Dict, values}
use brewblox_devcon_spark.Base.Json.{null, text, array, object, nil, item, Fields, end, field}
use brewblox_devcon_spark.BlockAnalysis.{Block, BlockClaim}
use brewblox_devcon_spark.BlockAnalysis.Relations.{collect, calculate_relations}
use brewblox_devcon_spark.BlockAnalysis.Relations.Marks.{
  claimed_ends, annotate, calculate_relations-annotate,
}
use brewblox_devcon_spark.BlockAnalysis.Claims.{extended_claim, calculate_claims}
use brewblox_devcon_spark.BlockAnalysis.Claims.Collected.{put_claims, block_claims, channel_claims}
use brewblox_devcon_spark.BlockAnalysis.Claims.Extended.{ClaimPath, IsTop, extended_claim_total}
use brewblox_devcon_spark.BlockAnalysis.Claims.Whole.{Extensions, calculate_claims-Extensions}

claim : String → Fields
claim id =
    field "claimedBy" (object (field "__bloxtype" (text "Link") (field "id" (text id) end))) end

abbrev blocks : List Block
blocks =
    record { id = "pin"; type = "DigitalActuator"; content = claim "pwm" }
    ∷ record { id = "pwm"; type = "ActuatorPwm"; content = claim "pid" }
    ∷ record { id = "pid"; type = "Pid"; content = end }
    ∷ []

calculate_relations-annotate_example :
    calculate_relations blocks
    ≡ (collect blocks >>= λ rs. claimed_ends blocks [] >>= λ claims. ok (annotate [] claims rs))
calculate_relations-annotate_example = calculate_relations-annotate blocks

abbrev claims : Dict BlockClaim
claims =
    ("pin", record { source = "pwm"; target = "pin"; intermediate = [] })
    ∷ ("pwm", record { source = "pid"; target = "pwm"; intermediate = [] })
    ∷ []

abbrev pin_claim : BlockClaim
pin_claim = record { source = "pwm"; target = "pin"; intermediate = [] }

extended_claim_total_example :
    (r : BlockClaim) × (extended_claim (suc (length claims)) claims pin_claim ≡ some r)
    × (r.target ≡ "pin")
    × ClaimPath claims "pwm" r.intermediate r.source
    × IsTop claims r
extended_claim_total_example = extended_claim_total claims pin_claim refl

-- The same with a module, a channel of which is claimed by the pin.
abbrev muxed : List Block
muxed =
    record {
      id = "exp";
      type = "OneWireGpioModule";
      content =
          field "channels"
            (array (
              item (object (field "claimedBy" (object (field "id" (text "pin") end)) end))
                (item (object (field "claimedBy" null end)) nil)))
            end;
    }
    ∷ blocks

abbrev result : List BlockClaim
result =
    record { source = "pid"; target = "pin"; intermediate = "pwm" ∷ [] }
    ∷ record { source = "pid"; target = "pwm"; intermediate = [] }
    ∷ record { source = "pid"; target = "exp"; intermediate = "pin" ∷ "pwm" ∷ [] }
    ∷ []

calculate_claims-Extensions_example :
    let d = put_claims (block_claims muxed) [] in
    Extensions d (values d ++ channel_claims muxed) result
unfolding calculate_claims claim
calculate_claims-Extensions_example = calculate_claims-Extensions muxed result refl
