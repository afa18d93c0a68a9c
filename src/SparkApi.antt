-- ===== src/SparkApi.antt =====
-- spark_api.py: blocks by name. The table of block names (a bidict), the commander and the sequence
-- compiler are parameters.
pub mod Links
pub mod Actions
pub mod Blocks
pub mod Calls
pub mod Guard
pub mod Merge
pub mod Names
pub mod Rename
use brewblox_devcon_spark.Base.{ℕ, String, Bool, Option, List}
use brewblox_devcon_spark.Base.Exn.{Result}
use brewblox_devcon_spark.Base.Json.{Fields}
use brewblox_devcon_spark.Models.Messages.{FirmwareBlock}
use brewblox_devcon_spark.Command.Methods.{Method}
use brewblox_devcon_spark.StateMachine.{StateMachine}

-- A bidict that drops old entries with the same key or the same value.
pub record Bidict (S : Type 0) : Type 0 where
  pub get : S → String → Option ℕ
  pub inverse : S → ℕ → Option String
  pub put : String → ℕ → S → S
  pub delete : String → S → S
  pub clear : S → S

-- What the API is connected to. `W` is what the commander works on.
pub record Env (S W : Type 0) : Type 0 where
  pub block_store : Bidict S
  pub cmder : Method → W → Result (List FirmwareBlock) × W
  pub validate : FirmwareBlock → W → Result FirmwareBlock × W
  pub sequence_parse : Fields → Result Fields
  pub sequence_serialize : Fields → Result Fields
  pub service_id : String

-- `checks` counts the connection checks that were scheduled.
pub record Api (S W : Type 0) : Type 0 where
  pub store : S
  pub world : W
  pub state : StateMachine
  pub checks : ℕ

-- `BlockIdentity`, and `Block` where the data is given.
pub record Block : Type 0 where
  pub id : Option String
  pub nid : Option ℕ
  pub type : Option String
  pub service : Option String
  pub content : Option Fields
